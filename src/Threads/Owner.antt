-- ===== src/Threads/Owner.antt =====
-- A mutex: its owner is the one thread that stands between the lock and the unlock.
use secured_operation_system.Base.{
  ℕ, ◌≡◌, refl, sym, ap, ◌∙◌, Bool, true, false, Option, none, some, ◌==◌, arith, Bool-cases, ==_eq,
  ==_refl, inl, inr,
}
use secured_operation_system.Threads.Family.{set}

-- The readers are known by their number.
pub data Thread : Type 0 where
  writer : Thread
  reader : ℕ → Thread

-- `w` says whether the writer stands inside, and `r` whether a reader does.
pub record Owned (owner : Option Thread) (w : Bool) (r : ℕ → Bool) : Type 0 where
  pub writer_owns : w ≡ true → owner ≡ some writer
  pub reader_owns : (id : ℕ) → r id ≡ true → owner ≡ some (reader id)
  pub owner_writer : owner ≡ some writer → w ≡ true
  pub owner_reader : (id : ℕ) → owner ≡ some (reader id) → r id ≡ true

abbrev reader_of : Option Thread → ℕ
reader_of none = 0
reader_of (some writer) = 0
reader_of (some (reader id)) = id

pub writer_locks : {w : Bool} {r : ℕ → Bool} → Owned none w r → Owned (some writer) true r
writer_locks o = record {
  writer_owns = λ _. refl;
  reader_owns = λ id p. absurd (ground (arith, o.reader_owns id p));
  owner_writer = λ _. refl;
  owner_reader = λ id p. absurd (ground arith);
}

pub writer_unlocks : {l : Option Thread} {r : ℕ → Bool} → Owned l true r → Owned none false r
writer_unlocks o = record {
  writer_owns = λ p. absurd (ground arith);
  reader_owns = λ id p. absurd (ground (arith, o.reader_owns id p, o.writer_owns refl));
  owner_writer = λ p. absurd (ground arith);
  owner_reader = λ id p. absurd (ground arith);
}

pub reader_locks :
    {w : Bool} {r : ℕ → Bool} (id : ℕ) → Owned none w r → Owned (some (reader id)) w (set r id true)
reader_locks {w} {r} id o = record {
  writer_owns = λ p. absurd (ground (arith, o.writer_owns p));
  reader_owns = λ j p. elim (Bool-cases (j == id)) [
    | inl e ↦ ap (λ (k : ℕ). some (reader k)) (sym (==_eq j id e))
    | inr e ↦ absurd (ground (arith, o.reader_owns j (rw (e) at p)))
  ];
  owner_writer = λ p. absurd (ground arith);
  owner_reader = λ j p. let same : id ≡ j = ap reader_of p in rw (← same) (rw (==_refl id) refl);
}

pub reader_unlocks :
    {l : Option Thread} {w : Bool} {r : ℕ → Bool} (id : ℕ)
    → r id ≡ true
    → Owned l w r
    → Owned none w (set r id false)
reader_unlocks {l} {w} {r} id h o = record {
  writer_owns = λ p. absurd (ground (arith, o.writer_owns p, o.reader_owns id h));
  reader_owns = λ j p. elim (Bool-cases (j == id)) [
    | inl e ↦ absurd (ground (arith, rw e at p))
    | inr e ↦ absurd (
        let same : id ≡ j = ap reader_of (sym (o.reader_owns id h) ∙ o.reader_owns j (rw e at p)) in
        ground (arith, same, e))
  ];
  owner_writer = λ p. absurd (ground arith);
  owner_reader = λ j p. absurd (ground arith);
}

-- No two threads stand inside at once.
pub reader_alone :
    {l : Option Thread} {w : Bool} {r : ℕ → Bool} (id j : ℕ)
    → Owned l w r
    → r id ≡ true
    → r j ≡ true
    → id ≡ j
reader_alone id j o p q = ap reader_of (sym (o.reader_owns id p) ∙ o.reader_owns j q)

pub writer_alone :
    {l : Option Thread} {w : Bool} {r : ℕ → Bool} (id : ℕ) → Owned l w r → w ≡ true → r id ≡ false
writer_alone {l} {w} {r} id o p = elim (Bool-cases (r id)) [
  | inl q ↦ absurd (ground (arith, o.writer_owns p, o.reader_owns id q))
  | inr q ↦ q
]

pub reader_excludes :
    {l : Option Thread} {w : Bool} {r : ℕ → Bool} (id : ℕ) → Owned l w r → r id ≡ true → w ≡ false
reader_excludes {l} {w} {r} id o p = elim (Bool-cases w) [
  | inl q ↦ absurd (ground (arith, o.writer_owns q, o.reader_owns id p))
  | inr q ↦ q
]
