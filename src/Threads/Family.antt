-- ===== src/Threads/Family.antt =====
-- Families of places indexed by the number of a thread.
use secured_operation_system.Base.{
  ℕ, ◌≡◌, refl, sym, ap, ◌∙◌, fun_ext, ◌==◌, ==_eq, if◌then◌else◌, Bool-cases, inl, inr,
}

-- `f[i] = v`
abbrev pub set {ℓ} : {A : Type ℓ} → (ℕ → A) → ℕ → A → ℕ → A
set f i v j = if j == i then v else f j

-- `g` at each thread.
abbrev at_each {ℓ κ} : {A : Type ℓ} {B : Type κ} → (A → B) → (ℕ → A) → ℕ → B
at_each g h j = g (h j)

module _ {ℓ κ} {A : Type ℓ} {B : Type κ} (g : A → B) (f : ℕ → A) (i : ℕ) (v : A) where
  pub at_each-set : at_each g (set f i v) ≡ set (at_each g f) i (g v)
  at_each-set = fun_ext λ j. elim (Bool-cases (j == i)) [ inl e ↦ rw e refl | inr e ↦ rw e refl ]

  pub at_each-set_same : g v ≡ g (f i) → at_each g (set f i v) ≡ at_each g f
  at_each-set_same h = fun_ext λ j. elim (Bool-cases (j == i)) [
    | inl e ↦ rw e (h ∙ ap (λ k. g (f k)) (sym (==_eq j i e)))
    | inr e ↦ rw e refl
  ]

-- What holds at the thread that is set and at all others holds at every thread.
pub set_all {ℓ κ} :
    {A : Type ℓ} (P : A → Type κ) (f : ℕ → A) (i : ℕ) (v : A)
    → P v
    → ((j : ℕ) → P (f j))
    → (j : ℕ) → P (set f i v j)
set_all P f i v k h j = elim (Bool-cases (j == i)) [ inl e ↦ rw e k | inr e ↦ rw e (h j) ]

-- What is set and set back is as if it had never been.
pub set_undone {ℓ} :
    {A : Type ℓ} (f : ℕ → A) (id : ℕ) (new old : A) → f id ≡ old → set (set f id new) id old ≡ f
set_undone f id new old free = fun_ext λ j. elim (Bool-cases (j == id)) [
  | inl q ↦ rw q (rw (==_eq j id q) (sym free))
  | inr q ↦ rw q refl
]
