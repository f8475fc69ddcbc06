-- ===== src/Base/Stream.antt =====
-- Sequential reading of a byte source: `Read::read_exact` and `binrw`'s big-endian reads.
use Prim.Native.Nat.{ℕ, zero, suc, ◌^◌, ◌<◌}
use mathlib.Core.Path.{◌≡◌, refl, sym, ap, ◌∙◌}
use mathlib.Core.Bool.{Bool, true, false}
use mathlib.Core.List.{List, [], ◌∷◌, ◌++◌, append_assoc}
use native.Mathlib.Omega.{arith}
use goldboot.Base.Tests.{ltb, if◌then◌else◌}
use goldboot.Base.Lists.{length, take, drop, take-append, drop-append, length-append}
use goldboot.Base.Outcome.{Result, ok, err, Error, unexpected_eof, bind, bind-eq-ok}
use goldboot.Base.Bytes.{be_bytes, of_be, length-be_bytes, of_be-be_bytes}

-- A reader takes the bytes that are left and returns a value with what then is left.
abbrev pub Reader {ℓ} : Type ℓ → Type ℓ
Reader A = List ℕ → Result (A × List ℕ)

module _ {ℓ} {A : Type ℓ} where
  abbrev pub pure : A → Reader A
  pure a bs = ok (a, bs)

  abbrev pub fail : Error → Reader A
  fail e bs = err e

module _ {ℓ κ} {A : Type ℓ} {B : Type κ} where
  infixl 5 ◌>>=◌ ◌>>◌
  unfoldable pub ◌>>=◌ : Reader A → (A → Reader B) → Reader B
  ◌>>=◌ p f bs = bind (p bs) λ (a, rest). f a rest

  unfoldable pub ◌>>◌ : Reader A → Reader B → Reader B
  unfolding ◌>>=◌
  p >> q = p >>= λ _. q

-- `assert(...)` of a derived reader, or a check that bails.
unfoldable pub require : Bool → Error → Reader (Unit {0})
require true e = pure tt
require false e = fail e

-- Fill a buffer of n bytes, or fail at the end of the source.
unfoldable pub read_exact : ℕ → Reader (List ℕ)
read_exact n bs = if ltb (length bs) n then err unexpected_eof else ok (take n bs, drop n bs)

-- An unsigned big-endian integer of k bytes.
unfoldable pub read_be : ℕ → Reader ℕ
unfolding ◌>>=◌ read_exact
read_be k = do bs ← read_exact k; pure (of_be bs)

-- n values one after the other (`count = n`).
unfoldable pub read_count {ℓ} : {A : Type ℓ} → ℕ → Reader A → Reader (List A)
read_count zero p = pure []
read_count (suc n) p = do a ← p; rest ← read_count n p; pure (a ∷ rest)

-- `p` reads `a` off `printed` and leaves whatever follows.
pub record Reads {ℓ} {A : Type ℓ} (p : Reader A) (printed : List ℕ) (a : A) : Type ℓ where
  pub apply : (rest : List ℕ) → p (printed ++ rest) ≡ ok (a, rest)

read_exact-append : (bs rest : List ℕ) → read_exact (length bs) (bs ++ rest) ≡ ok (bs, rest)
unfolding read_exact
read_exact-append bs rest =
    ground (arith, length-append bs rest, take-append bs rest, drop-append bs rest)

pub read_exact-Reads : (bs : List ℕ) → Reads (read_exact (length bs)) bs bs
read_exact-Reads bs = record { apply = read_exact-append bs }

pub read_be-Reads : (k n : ℕ) → n < 256 ^ k → Reads (read_be k) (be_bytes k n) n
unfolding read_be
read_be-Reads k n h = record {
  apply = λ rest.
      rw (rw (length-be_bytes k n) at (read_exact-append (be_bytes k n) rest))
        (rw (of_be-be_bytes k n h));
}

module _ {ℓ κ} {A : Type ℓ} {B : Type κ} {p : Reader A} (f : A → Reader B) where
  -- Readers in sequence read what is printed in sequence.
  pub Reads-bind :
      {xs ys : List ℕ} {a : A} {b : B}
      → Reads p xs a
      → Reads (f a) ys b
      → Reads (p >>= f) (xs ++ ys) b
  unfolding ◌>>=◌
  Reads-bind {xs = xs} {ys = ys} hp hf = record {
    apply = λ rest. rw (append_assoc xs ys rest, hp.apply (ys ++ rest)) (hf.apply rest);
  }

  -- The last step only shapes what was read.
  pub Reads-last :
      {xs : List ℕ} {a : A} {b : B} → Reads p xs a → f a ≡ pure b → Reads (p >>= f) xs b
  unfolding ◌>>=◌
  Reads-last hp e = record { apply = λ rest. rw (hp.apply rest, e) }

pub Reads-pure {ℓ} : {A : Type ℓ} (a : A) → Reads (pure a) [] a
Reads-pure a = record { apply = λ rest. refl }

pub Reads-require {ℓ} :
    {B : Type ℓ} {b : Bool} (e : Error) {q : Reader B} {ys : List ℕ} {r : B}
    → b ≡ true
    → Reads q ys r
    → Reads (require b e >> q) ys r
unfolding ◌>>◌ require
Reads-require e h hq = record { apply = λ rest. rw h (hq.apply rest) }

-- As many values as were asked for.
pub length-read_count {ℓ} :
    {A : Type ℓ} (n : ℕ) (p : Reader A) (bs : List ℕ) (out : List A) (rest : List ℕ)
    → read_count n p bs ≡ ok (out, rest)
    → length out ≡ n
unfolding read_count ◌>>=◌
length-read_count zero p bs [] rest h = refl
length-read_count zero p bs (x ∷ out) rest h = cc
length-read_count (suc n) p bs out rest h =
    let ((a, left), first, h') =
      bind-eq-ok (p bs) (λ (a, left). bind (read_count n p left) λ (out', r). ok (a ∷ out', r)) h in
    let ((out', r), others, made) =
      bind-eq-ok (read_count n p left) (λ (out', r). ok (a ∷ out', r)) h' in
    let same : a ∷ out' ≡ out = cc in
    sym (ap length same) ∙ ap suc (length-read_count n p left out' r others)
