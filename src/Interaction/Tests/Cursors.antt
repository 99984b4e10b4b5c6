-- ===== src/Interaction/Tests/Cursors.antt =====
-- A codec of cursors that reads back what it writes.
use Prim.Native.Char.{code}
use Prim.Native.String.{String, [], ◌∷◌}
use blog_post.Base.{ℕ, zero, suc, ◌+◌, ◌≡◌, refl, some, ◌==◌, arith, if◌then◌else◌}
use blog_post.Repository.Keyset.{CursorCodec, Json}
use blog_post.Interaction.Pages.{RoundTrips}

-- A cursor in unary: a letter `a` for each unit of the time, a letter `b` for each of the id.
abbrev ids : ℕ → String
ids zero = []
ids (suc i) = "b" ∷ ids i

abbrev cursor : ℕ → ℕ → String
cursor zero i = ids i
cursor (suc t) i = "a" ∷ cursor t i

abbrev letters : ℕ → String → ℕ
letters c [] = 0
letters c (x ∷ s) = (if code x == c then 1 else 0) + letters c s

abbrev pub cursors : CursorCodec
cursors = record {
  dumps = cursor;
  loads = λ s. some (Json.dict (record { at = some (letters 97 s); id = some (letters 98 s) }));
}

ids-letters : (i : ℕ) → (letters 97 (ids i) ≡ 0) × (letters 98 (ids i) ≡ i)
ids-letters zero = (refl, refl)
ids-letters (suc i) = let h = ids-letters i in (omega (arith, h.0), omega (arith, h.1))

cursor-letters : (t i : ℕ) → (letters 97 (cursor t i) ≡ t) × (letters 98 (cursor t i) ≡ i)
cursor-letters zero i = ids-letters i
cursor-letters (suc t) i = let h = cursor-letters t i in (omega (arith, h.0), omega (arith, h.1))

pub cursors-RoundTrips : RoundTrips cursors
cursors-RoundTrips t i = let h = cursor-letters t i in rw (h.0, h.1) refl
