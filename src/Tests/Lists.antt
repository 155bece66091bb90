-- ===== src/Tests/Lists.antt =====
-- A list with the ends 1 and 2.
use tie_zhu_os.Base.{refl, true, [], ◌∷◌, ◌++◌, arith}
use tie_zhu_os.LinkedList.{Links, Ends, list_init, list_insert_before, list_push, list_remove}
use tie_zhu_os.LinkedList.Chain.{IsList, first}
use tie_zhu_os.LinkedList.Change.{insert_before-IsList, remove-IsList, init-IsList, push-IsList}

abbrev ends : Ends
ends = record { head = 1; tail = 2 }

abbrev blank : Links
blank = record { prev = (λ a. 0); next = (λ a. 0); intr_on = true }

abbrev single : Links
single = list_push ends 3 (list_init ends blank)

single-IsList : IsList single ends (3 ∷ [])
single-IsList = push-IsList _ ends 3 [] (init-IsList blank ends (ground arith)) refl

insert_before-IsList_example :
    IsList (list_insert_before (first [] 2) 4 single) ends ((3 ∷ []) ++ 4 ∷ [])
insert_before-IsList_example = insert_before-IsList single ends 4 (3 ∷ []) [] single-IsList refl

remove-IsList_example : IsList (list_remove 3 single) ends ([] ++ [])
remove-IsList_example = remove-IsList single ends 3 [] [] single-IsList
