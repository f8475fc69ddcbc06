-- ===== src/Base/File.antt =====
-- Contents of files: positioned writes, and reads at an offset.
use Prim.Native.Nat.{ℕ, zero, suc, ◌+◌, ◌-◌, ◌≤◌}
use mathlib.Core.Path.{◌≡◌, refl, sym, ap, ◌∙◌}
use mathlib.Core.Logic.{◌⊎◌, inl, inr}
use mathlib.Core.List.{List, [], ◌∷◌, ◌++◌, append-nil, append_assoc}
use native.Mathlib.Omega.{arith}
use native.Mathlib.Nat.{zero-add, suc-add}
use goldboot.Base.Lists.{
  take-append-drop, length, take, drop, replicate, length-append, length-take, length-drop,
  take-append, drop-append,
}

-- A gap that a seek past the end leaves reads as zeros.
unfoldable pub pad_to : ℕ → List ℕ → List ℕ
pad_to n file = file ++ replicate (n - length file) 0

-- `seek(Start(off))` and `write_all(bytes)`: the new contents.
unfoldable pub write_at : ℕ → List ℕ → List ℕ → List ℕ
unfolding pad_to
write_at off [] file = file
write_at off (b ∷ bs) file =
    take off (pad_to off file) ++ ((b ∷ bs) ++ drop (off + length (b ∷ bs)) file)

-- The n bytes at an offset, or fewer at the end.
abbrev pub slice : ℕ → ℕ → List ℕ → List ℕ
slice off n file = take n (drop off file)

module _ {ℓ} {A : Type ℓ} where
  pub drop-append_past : (k : ℕ) (xs ys : List A) → drop (length xs + k) (xs ++ ys) ≡ drop k ys
  drop-append_past k [] ys = rw (zero-add k)
  drop-append_past k (x ∷ xs) ys = rw (suc-add (length xs) k) (drop-append_past k xs ys)

pub pad_to-within : (n : ℕ) (file : List ℕ) → n ≤ length file → pad_to n file ≡ file
unfolding pad_to
pad_to-within n file h = let gap : n - length file ≡ 0 = omega arith in rw gap (append-nil file)

-- A write over as many bytes as it brings keeps what stands before and behind.
pub write_at-over :
    (front old new back : List ℕ)
    → length old ≡ length new
    → write_at (length front) new (front ++ (old ++ back)) ≡ front ++ (new ++ back)
unfolding write_at
write_at-over front [] [] back h = refl
write_at-over front (a ∷ old) [] back h = absurd (omega arith)
write_at-over front old (b ∷ new) back h =
    rw
      (
        pad_to-within (length front) (front ++ (old ++ back))
            (omega (arith, length-append front (old ++ back))),
        take-append front (old ++ back),
        drop-append_past (suc (length new)) front (old ++ back),
        ← h,
        drop-append old back,
      )
      refl

-- The three parts of a file around the bytes that a write in bounds replaces.
pub record IsSplit (off n : ℕ) (file : List ℕ) : Type 0 where
  pub front : List ℕ
  pub middle : List ℕ
  pub back : List ℕ
  pub joined : file ≡ front ++ (middle ++ back)
  pub front_long : off ≡ length front
  pub middle_long : n ≡ length middle

pub split_at : (off n : ℕ) (file : List ℕ) → off + n ≤ length file → IsSplit off n file
split_at off n file h = record {
  front = take off file;
  middle = slice off n file;
  back = drop n (drop off file);
  joined = rw (take-append-drop n (drop off file), take-append-drop off file);
  front_long = omega (arith, length-take off file);
  middle_long = omega (arith, length-take n (drop off file), length-drop off file);
}

slice-joined :
    (front middle back : List ℕ)
    → slice (length front) (length middle) (front ++ (middle ++ back)) ≡ middle
slice-joined front middle back = rw (drop-append front (middle ++ back), take-append middle back)

drop_parts :
    (k : ℕ) (front middle back : List ℕ)
    → length front + length middle ≤ k
    → drop k (front ++ (middle ++ back)) ≡ drop (k - length front - length middle) back
drop_parts k front middle back h =
    let past : k ≡ length front + (length middle + (k - length front - length middle)) =
      omega arith in
    ap (λ (n : ℕ). drop n (front ++ (middle ++ back))) past
    ∙ drop-append_past _ front (middle ++ back)
    ∙ drop-append_past _ middle back

take_front : (n : ℕ) (xs ys : List ℕ) → n ≤ length xs → take n (xs ++ ys) ≡ take n xs
take_front zero xs ys h = refl
take_front (suc n) [] ys h = elim h [ ]
take_front (suc n) (x ∷ xs) ys h = ap (λ (t : List ℕ). x ∷ t) (take_front n xs ys (omega arith))

slice_front :
    (at n : ℕ) (xs ys : List ℕ) → at + n ≤ length xs → slice at n (xs ++ ys) ≡ slice at n xs
slice_front zero n xs ys h = take_front n xs ys (omega arith)
slice_front (suc at) n [] ys h = absurd (omega arith)
slice_front (suc at) n (x ∷ xs) ys h = slice_front at n xs ys (omega arith)

module _ (off : ℕ) (new file : List ℕ) (fits : off + length new ≤ length file) where
  -- A write in bounds, with the parts written out.
  pub write_at-parts :
      (s : IsSplit off (length new) file) → write_at off new file ≡ s.front ++ (new ++ s.back)
  write_at-parts s =
      rw (s.joined, s.front_long) (write_at-over s.front s.middle new s.back (sym s.middle_long))

  -- What was written is read back.
  pub slice-write_at : slice off (length new) (write_at off new file) ≡ new
  slice-write_at =
      let s = split_at off (length new) file fits in
      rw (write_at-parts s, s.front_long) (slice-joined s.front new s.back)

  pub length-write_at : length (write_at off new file) ≡ length file
  length-write_at =
      let s = split_at off (length new) file fits in
      omega (
        arith,
        ap length (write_at-parts s),
        ap length s.joined,
        s.middle_long,
        length-append s.front (new ++ s.back),
        length-append new s.back,
        length-append s.front (s.middle ++ s.back),
        length-append s.middle s.back,
      )

  -- Nothing behind the write changes.
  pub drop-write_at : (k : ℕ) → off + length new ≤ k → drop k (write_at off new file) ≡ drop k file
  drop-write_at k h =
      let s = split_at off (length new) file fits in
      let middle_fits = s.middle_long in
      let front_fits = s.front_long in
      ap (drop k) (write_at-parts s)
      ∙ drop_parts k s.front new s.back (omega arith)
      ∙ ap (λ (m : ℕ). drop (k - length s.front - m) s.back) s.middle_long
      ∙ sym (ap (drop k) s.joined ∙ drop_parts k s.front s.middle s.back (omega arith))

  -- Nothing before it changes.
  pub slice_before-write_at :
      (at n : ℕ) → at + n ≤ off → slice at n (write_at off new file) ≡ slice at n file
  slice_before-write_at at n h =
      let s = split_at off (length new) file fits in
      let front_fits = s.front_long in
      ap (slice at n) (write_at-parts s)
      ∙ slice_front at n s.front (new ++ s.back) (omega arith)
      ∙ sym (ap (slice at n) s.joined ∙ slice_front at n s.front (s.middle ++ s.back) (omega arith))

  -- Writing what is there already changes nothing.
  pub write_at_same : slice off (length new) file ≡ new → write_at off new file ≡ file
  unfolding split_at
  write_at_same e =
      let s = split_at off (length new) file fits in
      write_at-parts s ∙ ap (λ (m : List ℕ). s.front ++ (m ++ s.back)) (sym e) ∙ sym s.joined

-- The later of two writes to the same place counts.
pub write_at_twice :
    (off : ℕ) (new old file : List ℕ)
    → off + length new ≤ length file
    → length old ≡ length new
    → write_at off new (write_at off old file) ≡ write_at off new file
write_at_twice off new old file fits same =
    let s = split_at off (length new) file fits in
    let joined = s.joined in
    let first = s.front_long in
    let first_old : write_at off old file ≡ s.front ++ (old ++ s.back) =
      rw (s.joined, s.front_long)
        (write_at-over s.front s.middle old s.back (sym (same ∙ s.middle_long))) in
    ap (write_at off new) first_old
    ∙ rw s.front_long (write_at-over s.front old new s.back same)
    ∙ sym (write_at-parts off new file fits s)

-- What stands beside a write.
pub slice_apart-write_at :
    (off : ℕ) (new file : List ℕ) (at n : ℕ)
    → off + length new ≤ length file
    → (at + n ≤ off) ⊎ (off + length new ≤ at)
    → slice at n (write_at off new file) ≡ slice at n file
slice_apart-write_at off new file at n fits (inl h) = slice_before-write_at off new file fits at n h
slice_apart-write_at off new file at n fits (inr h) =
    ap (take n) (drop-write_at off new file fits at h)

pub drop_front : (k : ℕ) (xs ys : List ℕ) → k ≤ length xs → drop k (xs ++ ys) ≡ drop k xs ++ ys
drop_front zero xs ys h = refl
drop_front (suc k) [] ys h = absurd (omega arith)
drop_front (suc k) (x ∷ xs) ys h = drop_front k xs ys (omega arith)

pub drop_all : (xs : List ℕ) → drop (length xs) xs ≡ []
drop_all [] = refl
drop_all (x ∷ xs) = drop_all xs

-- A write inside a part of a file.
pub write_at-inside :
    (off : ℕ) (new front middle back : List ℕ)
    → off + length new ≤ length middle
    → write_at (length front + off) new (front ++ (middle ++ back))
      ≡ front ++ (write_at off new middle ++ back)
write_at-inside off new front middle back fits =
    let s = split_at off (length new) middle fits in
    let inner = s.front in
    let off_long = s.front_long in
    let apart : front ++ (middle ++ back) ≡ (front ++ inner) ++ (s.middle ++ (s.back ++ back)) =
      ap (λ (m : List ℕ). front ++ (m ++ back)) s.joined
      ∙ ap (λ (t : List ℕ). front ++ t)
          (append_assoc inner (s.middle ++ s.back) back
            ∙ ap (λ (t : List ℕ). inner ++ t) (append_assoc s.middle s.back back))
      ∙ sym (append_assoc front inner (s.middle ++ (s.back ++ back))) in
    let at : length front + off ≡ length (front ++ inner) =
      omega (arith, length-append front inner) in
    ap (write_at (length front + off) new) apart
    ∙ ap (λ (k : ℕ). write_at k new ((front ++ inner) ++ (s.middle ++ (s.back ++ back)))) at
    ∙ write_at-over (front ++ inner) s.middle new (s.back ++ back) (sym s.middle_long)
    ∙ append_assoc front inner (new ++ (s.back ++ back))
    ∙ ap (λ (t : List ℕ). front ++ t)
        (sym (
            append_assoc inner (new ++ s.back) back
            ∙ ap (λ (t : List ℕ). inner ++ t) (append_assoc new s.back back))
          ∙ ap (λ (t : List ℕ). t ++ back) (sym (write_at-parts off new middle fits s)))

pub slice_inside-write_at :
    (at n off : ℕ) (new file : List ℕ)
    → at + n ≤ length file
    → off + length new ≤ n
    → slice at n (write_at (at + off) new file) ≡ write_at off new (slice at n file)
unfolding split_at
slice_inside-write_at at n off new file whole fits =
    let s = split_at at n file whole in
    let long = s.middle_long in
    let kept = length-write_at off new s.middle (omega arith) in
    let moved : write_at (at + off) new file ≡ s.front ++ (write_at off new s.middle ++ s.back) =
      ap (write_at (at + off) new) s.joined
      ∙ ap (λ (k : ℕ). write_at (k + off) new (s.front ++ (s.middle ++ s.back))) s.front_long
      ∙ write_at-inside off new s.front s.middle s.back (omega arith) in
    ap (slice at n) moved
    ∙ ap (λ (k : ℕ). slice k n (s.front ++ (write_at off new s.middle ++ s.back))) s.front_long
    ∙ ap (λ (k : ℕ). slice (length s.front) k (s.front ++ (write_at off new s.middle ++ s.back)))
        (long ∙ sym kept)
    ∙ slice-joined s.front (write_at off new s.middle) s.back
