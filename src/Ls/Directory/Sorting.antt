-- ===== src/Ls/Directory/Sorting.antt =====
-- The entries of lab2_ls/myls.c are shown in the order of `entry_sorter`.
use secured_operation_system.Base.{
  not, ◌&&◌, ◌||◌, ltb, ◌==◌, map, tolower, Bytes, true, ℕ, ◌+◌, ◌≡◌, refl, ap, ◌∙◌, Bool, false,
  List, [], ◌∷◌, All, to_int, arith, Bool-cases, inl, inr,
}
use secured_operation_system.Ls.Order.{
  entry_sorter, is_hidden, strcasecmp, is_positive, entry_sorter-opposite, entry_sorter_trans,
}
use secured_operation_system.Ls.Directory.{Dirent, insert, sort}

-- `x` does not stand behind `y`.
abbrev Before : Dirent → Dirent → Type 0
Before x y = is_positive (entry_sorter x.d_name y.d_name) ≡ false

abbrev IsSorted : List Dirent → Type 0
IsSorted [] = Unit
IsSorted (x ∷ xs) = All (Before x) xs × IsSorted xs

-- How many entries pass a test.
abbrev pub count : (Dirent → Bool) → List Dirent → ℕ
count p [] = 0
count p (x ∷ xs) = to_int (p x) + count p xs

All-Before : (x y : Dirent) (ys : List Dirent) → Before x y → All (Before y) ys → All (Before x) ys
All-Before x y [] h k = tt
All-Before x y (z ∷ zs) h k =
    (entry_sorter_trans x.d_name y.d_name z.d_name h k.0, All-Before x y zs h k.1)

All-insert :
    (x e : Dirent) (ys : List Dirent)
    → Before x e
    → All (Before x) ys
    → All (Before x) (insert e ys)
unfolding insert
All-insert x e [] h k = (h, tt)
All-insert x e (y ∷ ys) h k = elim (Bool-cases (is_positive (entry_sorter e.d_name y.d_name))) [
  | inl q ↦ rw q (k.0, All-insert x e ys h k.1)
  | inr q ↦ rw q (h, k)
]

insert-IsSorted : (e : Dirent) (ys : List Dirent) → IsSorted ys → IsSorted (insert e ys)
unfolding insert
insert-IsSorted e [] h = (tt, tt)
insert-IsSorted e (y ∷ ys) h = elim (Bool-cases (is_positive (entry_sorter e.d_name y.d_name))) [
  | inl q ↦
      let back : Before y e = rw (entry_sorter-opposite e.d_name y.d_name) (ground (arith, q)) in
      rw q (All-insert y e ys back h.0, insert-IsSorted e ys h.1)
  | inr q ↦ rw q ((q, All-Before e y ys q h.0), h)
]

count-insert :
    (p : Dirent → Bool) (e : Dirent) (ys : List Dirent)
    → count p (insert e ys) ≡ to_int (p e) + count p ys
unfolding insert
count-insert p e [] = refl
count-insert p e (y ∷ ys) = elim (Bool-cases (is_positive (entry_sorter e.d_name y.d_name))) [
  | inl q ↦ rw q (omega (arith, count-insert p e ys))
  | inr q ↦ rw q refl
]

sort_lem :
    (es : List Dirent) → IsSorted (sort es) × ((p : Dirent → Bool) → count p (sort es) ≡ count p es)
unfolding sort
sort_lem [] = (tt, λ p. refl)
sort_lem (e ∷ es) =
    let (sorted, same) = sort_lem es in
    (
      insert-IsSorted e (sort es) sorted,
      λ p. count-insert p e (sort es) ∙ ap (λ n. to_int (p e) + n) (same p),
    )

-- Does a name begin with a dot?
abbrev dotted : Bytes → Bool
dotted [] = false
dotted (c ∷ cs) = c == b'.'

-- The order of a dictionary, in which the beginning of a word stands before it.
abbrev dictionary : Bytes → Bytes → Bool
dictionary [] t = true
dictionary (a ∷ s) [] = false
dictionary (a ∷ s) (b ∷ t) = ltb a b || a == b && dictionary s t

-- A name with a dot stands before one without; two names of one kind stand as in a dictionary, in
-- lower case.
abbrev listed_before : Bytes → Bytes → Bool
listed_before s t =
    dotted s && not (dotted t)
    || (dotted s || not (dotted t)) && dictionary (map tolower s) (map tolower t)

abbrev pub IsListing : List Dirent → Type 0
IsListing [] = Unit
IsListing (x ∷ xs) = All (λ y. listed_before x.d_name y.d_name ≡ true) xs × IsListing xs

strcasecmp-dictionary :
    (s t : Bytes) → is_positive (strcasecmp s t) ≡ not (dictionary (map tolower s) (map tolower t))
strcasecmp-dictionary [] [] = refl
strcasecmp-dictionary [] (b ∷ t) = refl
strcasecmp-dictionary (a ∷ s) [] = refl
strcasecmp-dictionary (a ∷ s) (b ∷ t) = ground (arith, strcasecmp-dictionary s t)

is_hidden-dotted : (s : Bytes) → is_hidden s ≡ dotted s
is_hidden-dotted [] = refl
is_hidden-dotted (c ∷ cs) = refl

entry_sorter-listed_before :
    (s t : Bytes) → is_positive (entry_sorter s t) ≡ false → listed_before s t ≡ true
unfolding entry_sorter
entry_sorter-listed_before s t h =
    ground (arith, is_hidden-dotted s, is_hidden-dotted t, strcasecmp-dictionary s t, h)

All-listed :
    (x : Dirent) (ys : List Dirent)
    → All (Before x) ys
    → All (λ y. listed_before x.d_name y.d_name ≡ true) ys
All-listed x [] h = tt
All-listed x (y ∷ ys) (h, k) = (entry_sorter-listed_before x.d_name y.d_name h, All-listed x ys k)

IsSorted-IsListing : (es : List Dirent) → IsSorted es → IsListing es
IsSorted-IsListing [] h = tt
IsSorted-IsListing (e ∷ es) (h, k) = (All-listed e es h, IsSorted-IsListing es k)

-- Sorted by `entry_sorter` the entries stand with the names that begin with a dot first, and in each
-- of the two groups as in a dictionary without regard to case; and they are the same entries: every
-- test is passed by as many of them as before.
pub sort-IsListing :
    (es : List Dirent)
    → IsListing (sort es) × ((p : Dirent → Bool) → count p (sort es) ≡ count p es)
sort-IsListing es = let (sorted, same) = sort_lem es in (IsSorted-IsListing (sort es) sorted, same)
