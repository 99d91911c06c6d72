-- ===== src/Config/History/Subscribed.antt =====
-- The list of subscribers of config/viper.go as channels come and go.
use gobox.Base.{
  ℕ, suc, ◌<◌, ◌≡◌, refl, true, false, ◌||◌, List, [], ◌∷◌, ◌++◌, ◌==◌, arith, All, Bool-cases, inl,
  inr, subst,
}
use gobox.Config.{Channel, put, member, removed}
use gobox.Config.Channels.{AreOpen, IsOpen, AreDistinct, Channels, put-AreOpen_other}

member-append_one : (k i : ℕ) (is : List ℕ) → member k (is ++ i ∷ []) ≡ (member k is || (i == k))
member-append_one k i [] = ground arith
member-append_one k i (j ∷ js) = ground (arith, member-append_one k i js)

pub member_known : (n : ℕ) (is : List ℕ) → All (λ i. i < n) is → member n is ≡ false
member_known n [] h = refl
member_known n (i ∷ is) (a, h) = ground (arith, a, member_known n is h)

pub append-AreDistinct :
    (i : ℕ) (is : List ℕ) → member i is ≡ false → AreDistinct is → AreDistinct (is ++ i ∷ [])
append-AreDistinct i [] h d = (refl, tt)
append-AreDistinct i (j ∷ js) h (d, ds) =
    (ground (arith, h, d, member-append_one j i js), append-AreDistinct i js (ground (arith, h)) ds)

pub known_later : (n : ℕ) (is : List ℕ) → All (λ i. i < n) is → All (λ i. i < suc n) is
known_later n [] h = tt
known_later n (i ∷ is) (a, h) = (omega (arith, a), known_later n is h)

member-removed : (k i : ℕ) (is : List ℕ) → member k is ≡ false → member k (removed i is) ≡ false
member-removed k i [] h = refl
member-removed k i (j ∷ js) h = ground (arith, h, member-removed k i js)

pub removed-AreDistinct : (i : ℕ) (is : List ℕ) → AreDistinct is → AreDistinct (removed i is)
removed-AreDistinct i [] d = tt
removed-AreDistinct i (j ∷ js) (d, ds) = elim (Bool-cases (j == i)) [
  | inl yes_ ↦ rw (yes_) ds
  | inr other ↦ rw (other) (member-removed j i js d, removed-AreDistinct i js ds)
]

pub removed_known : (n i : ℕ) (is : List ℕ) → All (λ k. k < n) is → All (λ k. k < n) (removed i is)
removed_known n i [] h = tt
removed_known n i (j ∷ js) (a, h) = elim (Bool-cases (j == i)) [
  | inl yes_ ↦ rw (yes_) h
  | inr other ↦ rw (other) (a, removed_known n i js h)
]

pub removed-AreOpen :
    {T : Type 0} (i : ℕ) (c : Channel T) (channels : Channels T) (is : List ℕ)
    → AreOpen channels is
    → AreDistinct is
    → AreOpen (put i c channels) (removed i is)
removed-AreOpen i c channels [] h d = tt
removed-AreOpen i c channels (j ∷ js) (a, h) (d, ds) = elim (Bool-cases (j == i)) [
  | inl yes_ ↦
      let same : j ≡ i = ground (arith, yes_) in
      rw (yes_) (put-AreOpen_other i c channels js (subst (λ k. member k js ≡ false) same d) h)
  | inr other ↦ rw (other) (rw (other) a, removed-AreOpen i c channels js h ds)
]

pub member-IsOpen :
    {T : Type 0} (i : ℕ) (channels : Channels T) (is : List ℕ)
    → AreOpen channels is
    → member i is ≡ true
    → IsOpen channels i
member-IsOpen i channels [] h m = absurd (cc)
member-IsOpen i channels (j ∷ js) (a, h) m = elim (Bool-cases (j == i)) [
  | inl yes_ ↦ let same : j ≡ i = ground (arith, yes_) in subst (IsOpen channels) same a
  | inr other ↦ member-IsOpen i channels js h (ground (arith, m, other))
]
