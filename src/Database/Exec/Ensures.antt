-- ===== src/Database/Exec/Ensures.antt =====
-- What a call does to the database: begun where `P` holds, it ends where `Q a` holds if it returns
-- `a`, and where `E` holds if it raises. One rule for each way to build a call.
use blog_post.Base.{ℕ, ◌≡◌, refl, Bool, true, false, Option, none, some, if◌then◌else◌}
use blog_post.Errors.Category.{ErrorCategory}
use blog_post.Errors.Constraint.{Constraint}
use blog_post.Database.Tables.{Db}
use blog_post.Database.Exec.{
  World, Result, ok, err, Error, Exec, pure, raise, select, draw, begin, modify, raise_if, or_raise,
  translating, or_else_return, ◌>>=◌, settle, caught, translated, continue,
}

abbrev pub Post : {A : Type 0} → (A → Db → Type 0) → (Db → Type 0) → Result A × World → Type 0
Post Q E (ok a, w) = Q a w.db
Post Q E (err _, w) = E w.db

pub record Ensures {A : Type 0} (P : Db → Type 0) (m : Exec A) (Q : A → Db → Type 0)
    (E : Db → Type 0) : Type 0 where
  pub at : (w : World) → P w.db → Post Q E (m w)

-- `m` keeps `P`, whether it returns or raises.
abbrev pub Keeps : {A : Type 0} → (Db → Type 0) → Exec A → Type 0
Keeps P m = Ensures P m (λ _. P) P

module _ {A : Type 0} (P : Db → Type 0) (Q : A → Db → Type 0) (E : Db → Type 0) where
  Post-settle : (w : World) (r : Result A × World) → P w.db → Post Q E r → Post Q P (settle w r)
  Post-settle w (ok a, w') p q = q
  Post-settle w (err e, w') p q = p

module _ {A : Type 0} (Q : A → Db → Type 0) (E : Db → Type 0) where
  Post-caught :
      (a : A) (r : Result A × World)
      → ((db : Db) → E db → Q a db)
      → Post Q E r
      → Post Q E (caught a r)
  Post-caught a (ok b, w) h q = q
  Post-caught a (err (Error.platform c), w) h q = h w.db q
  Post-caught a (err (Error.integrity c), w) h q = q
  Post-caught a (err Error.out_of_range, w) h q = q
  Post-caught a (err Error.key_error, w) h q = q
  Post-caught a (err Error.attribute_error, w) h q = q
  Post-caught a (err Error.unicode_error, w) h q = q
  Post-caught a (err Error.assertion, w) h q = q

  Post-translated :
      (o : Constraint → Option ErrorCategory) (r : Result A × World)
      → Post Q E r
      → Post Q E (translated o r)
  Post-translated o (ok b, w) q = q
  Post-translated o (err (Error.platform c), w) q = q
  Post-translated o (err (Error.integrity c), w) q = q
  Post-translated o (err Error.out_of_range, w) q = q
  Post-translated o (err Error.key_error, w) q = q
  Post-translated o (err Error.attribute_error, w) q = q
  Post-translated o (err Error.unicode_error, w) q = q
  Post-translated o (err Error.assertion, w) q = q

module _ {A B : Type 0} (Q : A → Db → Type 0) (R : B → Db → Type 0) (E : Db → Type 0) where
  Post-continue :
      (f : A → Exec B) (r : Result A × World)
      → ((a : A) → Ensures (Q a) (f a) R E)
      → Post Q E r
      → Post R E (continue f r)
  Post-continue f (ok a, w) h q = (h a).at w q
  Post-continue f (err e, w) h q = q

module _ {A : Type 0} {P : Db → Type 0} {Q : A → Db → Type 0} {E : Db → Type 0} where
  pub Ensures-pure : (a : A) → ((db : Db) → P db → Q a db) → Ensures P (pure a) Q E
  unfolding pure
  Ensures-pure a h = record { at = λ w p. h w.db p }

  pub Ensures-raise : (e : Error) → ((db : Db) → P db → E db) → Ensures P (raise {A = A} e) Q E
  unfolding raise
  Ensures-raise e h = record { at = λ w p. h w.db p }

  pub Ensures-select : (f : Db → A) → ((db : Db) → P db → Q (f db) db) → Ensures P (select f) Q E
  unfolding select
  Ensures-select f h = record { at = λ w p. h w.db p }

  pub Ensures-draw : (f : _ → A) → ((db : Db) (a : A) → P db → Q a db) → Ensures P (draw f) Q E
  unfolding draw
  Ensures-draw f h = record { at = λ w p. h w.db (f w.drawn) p }

  pub Ensures-or_raise :
      (o : Option A) (e : Error)
      → ((db : Db) (a : A) → o ≡ some a → P db → Q a db)
      → ((db : Db) → P db → E db)
      → Ensures P (or_raise o e) Q E
  unfolding or_raise
  Ensures-or_raise none e h k = record { at = λ w p. k w.db p }
  Ensures-or_raise (some a) e h k = record { at = λ w p. h w.db a refl p }

  -- A transaction that raises leaves the database as it was.
  pub Ensures-begin : {m : Exec A} → Ensures P m Q E → Ensures P (begin m) Q P
  unfolding begin
  Ensures-begin {m} h = record { at = λ w p. Post-settle P Q E w (m w) p (h.at w p) }

  pub Ensures-or_else_return :
      (a : A) {m : Exec A}
      → ((db : Db) → E db → Q a db)
      → Ensures P m Q E
      → Ensures P (or_else_return a m) Q E
  unfolding or_else_return
  Ensures-or_else_return a {m} k h = record { at = λ w p. Post-caught Q E a (m w) k (h.at w p) }

  pub Ensures-translating :
      (o : Constraint → Option ErrorCategory) {m : Exec A}
      → Ensures P m Q E
      → Ensures P (translating o m) Q E
  unfolding translating
  Ensures-translating o {m} h = record { at = λ w p. Post-translated Q E o (m w) (h.at w p) }

  pub Ensures-if :
      (b : Bool) {m n : Exec A}
      → (b ≡ true → Ensures P m Q E)
      → (b ≡ false → Ensures P n Q E)
      → Ensures P (if b then m else n) Q E
  Ensures-if true hm hn = hm refl
  Ensures-if false hm hn = hn refl

module _ {P : Db → Type 0} {Q : Unit → Db → Type 0} {E : Db → Type 0} where
  pub Ensures-modify : (f : Db → Db) → ((db : Db) → P db → Q tt (f db)) → Ensures P (modify f) Q E
  unfolding modify
  Ensures-modify f h = record { at = λ w p. h w.db p }

  pub Ensures-raise_if :
      (b : Bool) (e : Error)
      → ((db : Db) → b ≡ false → P db → Q tt db)
      → ((db : Db) → P db → E db)
      → Ensures P (raise_if b e) Q E
  unfolding raise_if
  Ensures-raise_if true e h k = record { at = λ w p. k w.db p }
  Ensures-raise_if false e h k = record { at = λ w p. h w.db refl p }

module _ {A B : Type 0} {P : Db → Type 0} {Q : A → Db → Type 0} {R : B → Db → Type 0}
    {E : Db → Type 0} where
  pub Ensures-bind :
      {m : Exec A} {f : A → Exec B}
      → Ensures P m Q E
      → ((a : A) → Ensures (Q a) (f a) R E)
      → Ensures P (m >>= f) R E
  unfolding ◌>>=◌
  Ensures-bind {m} {f} hm hf = record { at = λ w p. Post-continue Q R E f (m w) hf (hm.at w p) }

module _ {A : Type 0} (Q S : A → Db → Type 0) (E F : Db → Type 0) where
  Post-weaken :
      (r : Result A × World)
      → ((a : A) (db : Db) → Q a db → S a db)
      → ((db : Db) → E db → F db)
      → Post Q E r
      → Post S F r
  Post-weaken (ok a, w) g k q = g a w.db q
  Post-weaken (err e, w) g k q = k w.db q

module _ {A : Type 0} {P R E F : Db → Type 0} {Q S : A → Db → Type 0} where
  -- A stronger beginning and a weaker end.
  pub Ensures-weaken :
      {m : Exec A}
      → ((db : Db) → P db → R db)
      → ((a : A) (db : Db) → Q a db → S a db)
      → ((db : Db) → E db → F db)
      → Ensures R m Q E
      → Ensures P m S F
  Ensures-weaken {m} f g k h = record {
    at = λ w p. Post-weaken Q S E F (m w) g k (h.at w (f w.db p));
  }

-- The rules once more for an invariant, without side conditions where a call does not write.
module _ {A : Type 0} {P : Db → Type 0} where
  pub Keeps-pure : (a : A) → Keeps P (pure a)
  Keeps-pure a = Ensures-pure a (λ db h. h)

  pub Keeps-raise : (e : Error) → Keeps P (raise {A = A} e)
  Keeps-raise e = Ensures-raise e (λ db h. h)

  pub Keeps-select : (f : Db → A) → Keeps P (select f)
  Keeps-select f = Ensures-select f (λ db h. h)

  pub Keeps-draw : (f : ℕ → A) → Keeps P (draw f)
  Keeps-draw f = Ensures-draw f (λ db a h. h)

  pub Keeps-or_raise : (o : Option A) (e : Error) → Keeps P (or_raise o e)
  Keeps-or_raise o e = Ensures-or_raise o e (λ db a q h. h) (λ db h. h)

  pub Keeps-if : (b : Bool) (m n : Exec A) → Keeps P m → Keeps P n → Keeps P (if b then m else n)
  Keeps-if b m n hm hn = Ensures-if b (λ _. hm) (λ _. hn)

  pub Keeps-or_else_return : (a : A) (m : Exec A) → Keeps P m → Keeps P (or_else_return a m)
  Keeps-or_else_return a m h = Ensures-or_else_return a (λ db k. k) h

  pub Keeps-translating :
      (o : Constraint → Option ErrorCategory) (m : Exec A) → Keeps P m → Keeps P (translating o m)
  Keeps-translating o m h = Ensures-translating o h

module _ {P : Db → Type 0} where
  pub Keeps-raise_if : (b : Bool) (e : Error) → Keeps P (raise_if b e)
  Keeps-raise_if b e = Ensures-raise_if b e (λ db q h. h) (λ db h. h)

  pub Keeps-modify : (f : Db → Db) → ((db : Db) → P db → P (f db)) → Keeps P (modify f)
  Keeps-modify f h = Ensures-modify f h

module _ {A B : Type 0} {P : Db → Type 0} where
  pub Keeps-bind :
      (m : Exec A) (f : A → Exec B) → Keeps P m → ((a : A) → Keeps P (f a)) → Keeps P (m >>= f)
  Keeps-bind m f hm hf = Ensures-bind hm hf

pub ruleset keeps_rules = (
  Keeps-pure, Keeps-raise, Keeps-select, Keeps-draw, Keeps-or_raise, Keeps-if, Keeps-or_else_return,
  Keeps-translating, Keeps-raise_if, Keeps-modify, Keeps-bind,
)

Post-kept : {A : Type 0} (P : Db → Type 0) (r : Result A × World) → Post (λ _. P) P r → P r.1.db
Post-kept P (ok a, w) q = q
Post-kept P (err e, w) q = q

-- The world that a call leaves keeps the invariant.
pub kept :
    {A : Type 0} {P : Db → Type 0} {m : Exec A} → Keeps P m → (w : World) → P w.db → P (m w).1.db
kept {P} {m} h w p = Post-kept P (m w) (h.at w p)
