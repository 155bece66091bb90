-- ===== src/Tests/Shell.antt =====
-- Paths and a command line.
use tie_zhu_os.Base.{
  ℕ, ◌≡◌, ◌<◌, refl, some, List, [], ◌∷◌, ◌++◌, length, ◌==◌, if◌then◌else◌, arith, Memory, pos,
  All,
}
use tie_zhu_os.LinkedList.{Addr}
use tie_zhu_os.CString.Strings.{IsString}
use tie_zhu_os.Fs.Names.{text_of, AreNames, join}
use tie_zhu_os.Shell.Path.{wash_path, make_clear_abs_path}
use tie_zhu_os.Fs.Path.{same_text}
use tie_zhu_os.Shell.Washed.Step.{walk}
use tie_zhu_os.Shell.Washed.{IsDirectory, wash_path-walk, make_clear_abs_path-walk}
use tie_zhu_os.Shell.Command.{Command, cmd_parse}
use tie_zhu_os.Shell.Command.Words.{split_words}
use tie_zhu_os.Shell.Command.Parsed.{WordsAt, cmd_parse_lem}

-- "/a//../b"
abbrev names : List (ℕ × List ℕ)
names = (1, 46 ∷ 46 ∷ []) ∷ (0, 98 ∷ []) ∷ []

names-AreNames : AreNames ((0, 97 ∷ []) ∷ names)
names-AreNames = (
  ((ground arith, tt), omega arith),
  (((ground arith, (ground arith, tt)), omega arith), (((ground arith, tt), omega arith), tt)),
)

wash_path-walk_example :
    wash_path (join ((0, 97 ∷ []) ∷ names))
    ≡ some (text_of (walk ((97 ∷ []) ∷ (46 ∷ 46 ∷ []) ∷ (98 ∷ []) ∷ []) []))
wash_path-walk_example = wash_path-walk 0 (97 ∷ []) names names-AreNames (omega arith)

-- "a//../b" in "/c"
c-IsDirectory : All IsDirectory ((99 ∷ []) ∷ [])
unfolding same_text
c-IsDirectory = ((((ground arith, tt), omega arith), refl, refl), tt)

make_clear_abs_path-walk_example :
    make_clear_abs_path (some (text_of ((99 ∷ []) ∷ []))) ((97 ∷ []) ++ join names)
    ≡ some (text_of (walk ((97 ∷ []) ∷ (46 ∷ 46 ∷ []) ∷ (98 ∷ []) ∷ []) ((99 ∷ []) ∷ [])))
make_clear_abs_path-walk_example =
    make_clear_abs_path-walk ((99 ∷ []) ∷ []) (97 ∷ []) names c-IsDirectory names-AreNames
      (omega arith)

-- " ab c" at 10
abbrev text : List ℕ
text = 32 ∷ 97 ∷ 98 ∷ 32 ∷ 99 ∷ []

abbrev line : Memory
line = λ i.
    if i == 10
    then 32
    else (if i == 11
        then 97
        else (if i == 12 then 98 else (if i == 13 then 32 else (if i == 14 then 99 else 0))))

line-IsString : IsString line 10 text
line-IsString = (
  refl,
  ground arith,
  (refl, ground arith, (refl, ground arith, (refl, ground arith, (refl, ground arith, refl)))),
)

two_words : split_words 32 [] text ≡ (97 ∷ 98 ∷ []) ∷ (99 ∷ []) ∷ []
unfolding split_words
two_words = refl

cmd_parse_lem_example :
    (c : Command) × (cmd_parse 8 10 32 line ≡ some c)
    × (c.argc ≡ pos (length (split_words 32 [] text)))
    × WordsAt c.line c.argv 0 (split_words 32 [] text)
    × ((x : Addr) → x < 10 → c.line x ≡ line x)
cmd_parse_lem_example =
    cmd_parse_lem 8 32 10 text line (ground arith) (ground arith) line-IsString (omega arith)
      (rw two_words (omega arith))
