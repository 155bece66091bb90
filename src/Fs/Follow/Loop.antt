-- ===== src/Fs/Follow/Loop.antt =====
-- The loop of `search_file` in fs/fs.c follows the names of a path.
use tie_zhu_os.Base.{
  ℕ, zero, suc, ◌+◌, ◌<◌, ltb, >>-assert, length-append, ◌≤◌, ◌≡◌, refl, ap, sym, ◌∙◌, true, false,
  Option, none, some, List, [], ◌∷◌, ◌++◌, length, append_assoc, append-nil, ◌==◌, ◌>>=◌, >>=-some,
  >>=-eq-some, some_injective, subst, arith, Bool-cases, Option-cases, inl, inr,
}
use mathlib.Core.Path.{ap₂}
use tie_zhu_os.Files.Defs.{Inode}
use tie_zhu_os.Fs.Disk.{Disk}
use tie_zhu_os.Fs.Blocks.{Volume}
use tie_zhu_os.Fs.Path.{slash, next_name}
use tie_zhu_os.Fs.Names.{
  AreNames, join, names_of, next_name-names, parsed_nil, parsed_names, length-join,
}
use tie_zhu_os.Fs.Dirs.{DirEntry, search_dir_entry}
use tie_zhu_os.Fs.System.{Dir, FileSystem, Allocator, set_files, inode_of, dir_open, dir_close}
use tie_zhu_os.Fs.Views.{
  once, view, AreCounted, IsFresh, Same, Same-trans, Same-view, Same-AreCounted, inode_open-Opened,
}
use tie_zhu_os.Fs.Search.{
  ft_unknow, ft_regular, ft_directory, Searched, Found, end_search, enter, add_name, search_loop,
}
use tie_zhu_os.Fs.Follow.{
  Target, passed, follow, path_of, known, known_lem, follow_missing, follow_into, follow_regular,
  follow_on,
}

-- The directory `d` of the state `s` shows `i`, and closing it gives the state `s0` back.
pub record Holds (s0 s : FileSystem) (d : Dir) (i : Inode) : Type 0 where
  pub closed : Same s0 (dir_close d s)
  pub volume : s.volume ≡ s0.volume
  pub shows : once (inode_of d s) ≡ i

search_once :
    (i : Inode) (name : List ℕ) (disk : Disk)
    → search_dir_entry (once i) name disk ≡ search_dir_entry i name disk
unfolding search_dir_entry
search_once i name disk = refl

-- One name of the loop.
module _ (new : Allocator) (fuel last p c : ℕ) (cs rest : List ℕ) (r : Searched)
    (s : FileSystem) where
  abbrev HasRoom : Type 0
  HasRoom = ltb (length (add_name (c ∷ cs) r).searched_path) 512 ≡ true

  abbrev step : Option Found
  step = search_loop new (suc fuel) (some (c ∷ cs, rest)) last p r s

  abbrev looked_up : Option DirEntry
  looked_up = search_dir_entry (inode_of r.parent_dir s) (c ∷ cs) s.volume.disk

  step_missing : HasRoom → looked_up ≡ none → step ≡ some (none, add_name (c ∷ cs) r, s)
  unfolding search_loop
  step_missing room e = >>-assert room (rw e refl)

  step_into :
      (e : DirEntry) (o : Option (List ℕ × List ℕ))
      → HasRoom
      → next_name rest ≡ some o
      → looked_up ≡ some e
      → (e.f_type == ft_directory) ≡ true
      → step ≡ (
          enter new e.i_no (add_name (c ∷ cs) r) s >>= λ t.
          search_loop new fuel o e.i_no (inode_of r.parent_dir s).i_no t.0 t.1)
  unfolding search_loop
  step_into e o room parsed found dir = >>-assert room (rw found (>>=-some _ parsed (rw dir refl)))

  step_regular :
      (e : DirEntry) (o : Option (List ℕ × List ℕ))
      → HasRoom
      → next_name rest ≡ some o
      → looked_up ≡ some e
      → (e.f_type == ft_directory) ≡ false
      → (e.f_type == ft_regular) ≡ true
      → step ≡ some (some e.i_no, record (add_name (c ∷ cs) r) { file_type = ft_regular }, s)
  unfolding search_loop
  step_regular e o room parsed found dir file =
      >>-assert room (rw found (>>=-some _ parsed (rw (dir, file) refl)))

  step_on :
      (e : DirEntry) (o : Option (List ℕ × List ℕ))
      → HasRoom
      → next_name rest ≡ some o
      → looked_up ≡ some e
      → (e.f_type == ft_directory) ≡ false
      → (e.f_type == ft_regular) ≡ false
      → step ≡ search_loop new fuel o e.i_no p (add_name (c ∷ cs) r) s
  unfolding search_loop
  step_on e o room parsed found dir file =
      >>-assert room (rw found (>>=-some _ parsed (rw (dir, file) refl)))

-- The room behind a name.
fewer :
    (n : ℕ) (name : List ℕ) (names : List (ℕ × List ℕ)) (r : Searched)
    → length r.searched_path + length (join ((n, name) ∷ names)) < 512
    → length (r.searched_path ++ slash ∷ name) + length (join names) < 512
fewer n name names r room =
    omega (arith, room, length-join n name names, length-append r.searched_path (slash ∷ name))

module _ (new : Allocator) (fresh : IsFresh new) where
  dir_open-Holds :
      (n : ℕ) (i : Inode) (s0 s : FileSystem)
      → Same s0 s
      → AreCounted s0
      → view s0 n ≡ some i
      → (d : Dir) × (s1 : FileSystem) × (dir_open new n s ≡ some (d, s1)) × Holds s0 s1 d i
  unfolding dir_open dir_close
  dir_open-Holds n i s0 s m counted shown =
      let (a, f, e, o) =
        inode_open-Opened new fresh n i s (Same-AreCounted s0 s m counted)
          (Same-view s0 s n m ∙ shown) in
      (
        record { is_root = false; inode = a; dir_pos = 0 },
        set_files f s,
        >>=-some _ e refl,
        record { closed = Same-trans s0 s _ m o.closes; volume = m.volume; shows = o.shows },
      )

  -- What the loop leaves: a state with the last directory open.
  abbrev Followed : FileSystem → Searched → Option Found → Target → Type 0
  Followed s0 r found t =
      (r1 : Searched) × (s1 : FileSystem) × (found ≡ some (t.inode_no, r1, s1))
      × (r1.file_type ≡ t.file_type)
      × (r1.searched_path ≡ r.searched_path ++ path_of t.seen)
      × (j : Inode) × Holds s0 s1 r1.parent_dir j

  loop_ends :
      (fuel last p : ℕ) (r : Searched) (s : FileSystem)
      → search_loop new fuel none last p r s ≡ end_search new last p r s
  unfolding search_loop
  loop_ends fuel last p r s = refl

  end-Followed :
      (last p : ℕ) (i pi : Inode) (r : Searched) (s0 s : FileSystem)
      → AreCounted s0
      → view s0 p ≡ some pi
      → Holds s0 s r.parent_dir i
      → Followed s0 r
          (end_search new last p r s)
          (record { inode_no = some last; file_type = ft_directory; seen = [] })
  unfolding end_search
  end-Followed last p i pi r s0 s counted shown h =
      let (d, s1, e, g) =
        dir_open-Holds p pi s0 (dir_close r.parent_dir s) h.closed counted shown in
      (
        record r { parent_dir = d; file_type = ft_directory },
        s1,
        >>=-some _ e refl,
        refl,
        sym (append-nil r.searched_path),
        pi,
        g,
      )

  enter_held :
      (n : ℕ) (i j : Inode) (r : Searched) (s0 s : FileSystem)
      → AreCounted s0
      → view s0 n ≡ some j
      → Holds s0 s r.parent_dir i
      → (d : Dir) × (s1 : FileSystem) × (enter new n r s ≡ some (record r { parent_dir = d }, s1))
        × Holds s0 s1 d j
  unfolding enter
  enter_held n i j r s0 s counted shown h =
      let (d, s1, e, g) = dir_open-Holds n j s0 (dir_close r.parent_dir s) h.closed counted shown in
      (d, s1, >>=-some _ e refl, g)

  moved :
      (s0 : FileSystem) (r : Searched) (found found' : Option Found) (t t' : Target)
      → found' ≡ found
      → t ≡ t'
      → Followed s0 r found t
      → Followed s0 r found' t'
  moved s0 r found found' t t' same same_t f =
      subst (λ o. Followed s0 r o t') (sym same) (subst (Followed s0 r found) same_t f)

  -- A name in front of those that were looked up.
  pass_name :
      (name : List ℕ) (r : Searched) (s0 : FileSystem) (found : Option Found) (t : Target)
      → Followed s0 (add_name name r) found t
      → Followed s0 r found (passed name t)
  pass_name name r s0 found t (r1, s1, e, ty, path, j, held) =
      (r1, s1, e, ty, path ∙ append_assoc r.searched_path (slash ∷ name) (path_of t.seen), j, held)

  -- From the state `s0`.
  module _ (s0 : FileSystem) (counted : AreCounted s0) where
    pub search_loop-follow :
        (fuel last p : ℕ) (i pi : Inode) (names : List (ℕ × List ℕ)) (o : Option (List ℕ × List ℕ))
        (r : Searched) (s : FileSystem) (t : Target)
        → length names ≤ fuel
        → AreNames names
        → next_name (join names) ≡ some o
        → length r.searched_path + length (join names) < 512
        → r.file_type ≡ ft_unknow
        → view s0 p ≡ some pi
        → view s0 i.i_no ≡ some i
        → Holds s0 s r.parent_dir i
        → follow (known s0) s0.volume.disk last i (names_of names) ≡ some t
        → Followed s0 r (search_loop new fuel o last p r s) t
    unfolding follow
    search_loop-follow fuel last p i pi [] o r s t le h eo room ty pv iv held e =
        moved s0 r _ _ _ t
          (ap (λ x. search_loop new fuel x last p r s) (parsed_nil o eo)
            ∙ loop_ends fuel last p r s)
          (some_injective e) (end-Followed last p i pi r s0 s counted pv held)
    search_loop-follow fuel last p i pi ((n, []) ∷ names) o r s t le (h, hs) eo room ty pv iv held
          e =
        absurd h
    search_loop-follow zero last p i pi ((n, c ∷ cs) ∷ names) o r s t le h eo room ty pv iv held e =
        absurd (omega arith)
    search_loop-follow (suc fuel) last p i pi ((n, c ∷ cs) ∷ names) o r s t le (h, hs) eo room ty pv
          iv held e =
        let name = c ∷ cs in
        let disk = s0.volume.disk in
        let parsed =
          ap (λ x. search_loop new (suc fuel) x last p r s) (parsed_names n name names o h eo) in
        let (o1, eo1) = next_name-names names hs in
        let within = fewer n name names r room in
        let fits : ltb (length (add_name name r).searched_path) 512 ≡ true =
          ground (arith, within) in
        let same =
          sym (search_once (inode_of r.parent_dir s) name s.volume.disk)
          ∙ ap₂ (λ (x : Inode) (v : Volume). search_dir_entry x name v.disk) held.shows
              held.volume in
        elim (Option-cases (search_dir_entry i name disk)) [
          | inl missing ↦
              moved s0 r _ _ _ t
                (parsed ∙ step_missing new fuel last p c cs (join names) r s fits (same ∙ missing))
                (some_injective
                  (sym (follow_missing (known s0) disk last i name (names_of names) missing) ∙ e))
                (
                  add_name name r,
                  s,
                  refl,
                  ty,
                  ap (λ x. r.searched_path ++ slash ∷ x) (sym (append-nil name)),
                  i,
                  held,
                )
          | inr (d, found) ↦ elim (Bool-cases (d.f_type == ft_directory)) [
            | inl dir ↦
                let (j, knows, e1) = >>=-eq-some (known s0 d.i_no) _ (
                  sym (follow_into (known s0) disk last i name (names_of names) d found dir) ∙ e) in
                let (t1, e2, same_t) =
                  >>=-eq-some (follow (known s0) disk d.i_no j (names_of names)) _ e1 in
                let (shown, number) = known_lem s0 d.i_no j knows in
                let (d1, s1, e3, g) =
                  enter_held d.i_no i j (add_name name r) s0 s counted shown held in
                moved s0 r _ _ _ t
                  (parsed
                    ∙ step_into new fuel last p c cs (join names) r s d o1 fits eo1 (same ∙ found)
                        dir
                    ∙ >>=-some _ e3 refl)
                  (some_injective same_t)
                  (pass_name name r s0 _ t1 (
                    search_loop-follow fuel d.i_no (inode_of r.parent_dir s).i_no j i names o1
                      (record (add_name name r) { parent_dir = d1 }) s1 t1 (omega (arith, le)) hs
                      eo1 within ty (ap (λ (x : Inode). view s0 x.i_no) held.shows ∙ iv)
                      (ap (view s0) number ∙ shown) g e2))
            | inr no_dir ↦ elim (Bool-cases (d.f_type == ft_regular)) [
              | inl file ↦
                  moved s0 r _ _ _ t
                    (parsed
                      ∙ step_regular new fuel last p c cs (join names) r s d o1 fits eo1
                          (same ∙ found) no_dir file)
                    (some_injective (
                      sym (
                        follow_regular (known s0) disk last i name (names_of names) d found no_dir
                          file)
                      ∙ e))
                    (
                      record (add_name name r) { file_type = ft_regular },
                      s,
                      refl,
                      refl,
                      ap (λ x. r.searched_path ++ slash ∷ x) (sym (append-nil name)),
                      i,
                      held,
                    )
              | inr no_file ↦
                  let (t1, e2, same_t) =
                    >>=-eq-some (follow (known s0) disk d.i_no i (names_of names)) _ (
                      sym (
                        follow_on (known s0) disk last i name (names_of names) d found no_dir
                          no_file)
                      ∙ e) in
                  moved s0 r _ _ _ t
                    (parsed
                      ∙ step_on new fuel last p c cs (join names) r s d o1 fits eo1 (same ∙ found)
                          no_dir no_file)
                    (some_injective same_t)
                    (pass_name name r s0 _ t1 (
                      search_loop-follow fuel d.i_no p i pi names o1 (add_name name r) s t1
                        (omega (arith, le)) hs eo1 within ty pv iv held e2))
            ]
          ]
        ]
