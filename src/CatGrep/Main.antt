-- ===== src/CatGrep/Main.antt =====
-- `main` of lab1_cat_grep/main.c: the program by the name that it is run under.
use secured_operation_system.Base.{
  tolower, ℕ, ◌≡◌, refl, ap, Bool, true, false, ◌&&◌, ◌||◌, List, [], ◌∷◌, ◌++◌, map, Bytes, bytes,
  ◌==◌, if◌then◌else◌, arith,
}
use secured_operation_system.CatGrep.Stream.{wrong_name, Ran, Files}
use secured_operation_system.CatGrep.Cat.{text_processor_main}
use secured_operation_system.CatGrep.Grep.{Regcomp, pattern_searcher_main}

abbrev starts_with : Bytes → Bytes → Bool
starts_with [] s = true
starts_with (c ∷ cs) [] = false
starts_with (c ∷ cs) (d ∷ s) = c == d && starts_with cs s

-- `strstr(s, part) != NULL`
abbrev strstr : Bytes → Bytes → Bool
strstr [] part = starts_with part []
strstr (c ∷ s) part = starts_with part (c ∷ s) || strstr s part

module _ (getopt_long : List Bytes → List ℕ × List Bytes) (regcomp : Regcomp) (files : Files) where
  -- `argv` is the name that the program is run under, and the arguments.
  unfoldable pub main : Bytes → Bytes → List Bytes → Ran
  unfolding text_processor_main pattern_searcher_main
  main stdin exec_name args =
      let lower_name = map tolower exec_name in
      let cat = text_processor_main getopt_long files stdin exec_name args in
      let grep = pattern_searcher_main regcomp files stdin exec_name args in
      if strstr lower_name (bytes "mycat")
      then cat
      else (if strstr lower_name (bytes "mygrep")
          then grep
          else record { printed = []; messages = wrong_name ∷ []; status = 1 })

starts_with-append : (part s : Bytes) → starts_with part (part ++ s) ≡ true
starts_with-append [] s = refl
starts_with-append (c ∷ part) s = ground (arith, starts_with-append part s)

strstr-append : (before part after : Bytes) → strstr (before ++ part ++ after) part ≡ true
strstr-append [] [] [] = refl
strstr-append [] [] (d ∷ after) = refl
strstr-append [] (c ∷ part) after = ground (arith, starts_with-append (c ∷ part) after)
strstr-append (b ∷ before) part after = ground (arith, strstr-append before part after)

map-append : (f : ℕ → ℕ) (xs ys : Bytes) → map f (xs ++ ys) ≡ map f xs ++ map f ys
map-append f [] ys = refl
map-append f (x ∷ xs) ys = ap (λ t. f x ∷ t) (map-append f xs ys)

-- A run under any name in which "mycat" stands, in any letter case and with any text before and
-- after it, is a run of the text processor; so `mygrep` in a directory named `mycat` is one too.
main-mycat :
    (getopt_long : List Bytes → List ℕ × List Bytes) (regcomp : Regcomp) (files : Files)
    (stdin before name after : Bytes) (args : List Bytes)
    → map tolower name ≡ bytes "mycat"
    → main getopt_long regcomp files stdin (before ++ name ++ after) args
      ≡ text_processor_main getopt_long files stdin (before ++ name ++ after) args
unfolding main
main-mycat getopt_long regcomp files stdin before name after args e =
    let found : strstr (map tolower (before ++ name ++ after)) (bytes "mycat") ≡ true =
      rw (map-append tolower (before ++ name) after) (
        rw (map-append tolower before name)
          (rw e (strstr-append (map tolower before) (bytes "mycat") (map tolower after)))) in
    rw found refl
