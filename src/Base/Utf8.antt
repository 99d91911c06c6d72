-- ===== src/Base/Utf8.antt =====
-- UTF-8: Go strings as bytes, and the bytes of a text.
use Prim.Native.Nat.{ℕ, ◌+◌, ◌/◌, ◌%◌}
use mathlib.Core.Path.{◌≡◌}
use mathlib.Core.Logic.{inl, inr}
use mathlib.Core.Bool.{Bool, true, false, not, ◌&&◌}
use mathlib.Core.List.{List, [], ◌∷◌, ◌++◌}
use native.Mathlib.Omega.{arith}
use gobox.Base.Lists.{All}
use gobox.Base.Tests.{ltb, leb, if◌then◌else◌, Bool-cases}
use gobox.Base.Text.{Text}

abbrev pub Bytes : Type 0
Bytes = List ℕ

-- utf8.RuneStart: the byte is no continuation byte.
abbrev pub rune_start : ℕ → Bool
rune_start b = not (leb 0x80 b && ltb b 0xc0)

-- The continuation byte of six bits.
abbrev tail_byte : ℕ → ℕ
tail_byte n = 0x80 + n % 64

-- The first byte of a character, and the others.
unfoldable pub first_byte : ℕ → ℕ
first_byte c =
    if ltb c 0x80
    then c
    else if ltb c 0x800
    then 0xc0 + c / 64
    else if ltb c 0x10000
    then 0xe0 + c / 4096
    else 0xf0 + c / 262144

unfoldable pub tail_bytes : ℕ → Bytes
tail_bytes c =
    if ltb c 0x80
    then []
    else if ltb c 0x800
    then tail_byte c ∷ []
    else if ltb c 0x10000
    then tail_byte (c / 64) ∷ tail_byte c ∷ []
    else tail_byte (c / 4096) ∷ tail_byte (c / 64) ∷ tail_byte c ∷ []

abbrev pub encode : ℕ → Bytes
encode c = first_byte c ∷ tail_bytes c

abbrev pub utf8 : Text → Bytes
utf8 [] = []
utf8 (c ∷ s) = encode c ++ utf8 s

pub rune_start-first_byte : (c : ℕ) → rune_start (first_byte c) ≡ true
unfolding first_byte
rune_start-first_byte c = ground arith

abbrev pub AreTails : Bytes → Type 0
AreTails s = All (λ b. rune_start b ≡ false) s

tail_byte_lem : (n : ℕ) → rune_start (tail_byte n) ≡ false
tail_byte_lem n = ground arith

pub tail_bytes-AreTails : (c : ℕ) → AreTails (tail_bytes c)
unfolding tail_bytes
tail_bytes-AreTails c = elim (Bool-cases (ltb c 0x80)) [
  | inl one ↦ rw (tail_bytes, one) tt
  | inr more ↦ elim (Bool-cases (ltb c 0x800)) [
    | inl two ↦ rw (tail_bytes, more, two) (tail_byte_lem c, tt)
    | inr longer ↦ elim (Bool-cases (ltb c 0x10000)) [
      | inl three ↦
          rw (tail_bytes, more, longer, three) (tail_byte_lem (c / 64), (tail_byte_lem c, tt))
      | inr four ↦
          rw (tail_bytes, more, longer, four)
            (tail_byte_lem (c / 4096), (tail_byte_lem (c / 64), (tail_byte_lem c, tt)))
    ]
  ]
]
