-- ===== src/OwnRef/Tags.antt =====
-- The tag arithmetic of src/queue/own_ref.rs: a pointer and its tag do not disturb each other.
use Prim.Native.Nat.{bit_and, bit_or}
use native.Mathlib.Nat.{one-le-pow, div-add-mod', mod-lt, div-lt_iff_lt-mul}
use co_queue.Base.{ℕ, ◌+◌, ◌-◌, ◌*◌, ◌/◌, ◌%◌, ◌^◌, ◌≤◌, ◌<◌, ◌≡◌, ◌↔◌, sym, ap, ◌∙◌, arith}
use co_queue.Base.Bits.{bit_and-low, bit_and-high, bit_or-fields, pow-add}
use co_queue.Base.Outcome.{done}
use co_queue.OwnRef.{complement, low_bits, data_with_tag, decompose_data, ensure_aligned}

module _ (align : ℕ) (narrow : align ≤ 64) where
  one-le-block : 1 ≤ 2 ^ align
  one-le-block = one-le-pow align 2 (omega arith)

  -- The word as the fields above and below the tag's border.
  fields : (word : ℕ) → word / 2 ^ align * 2 ^ align + word % 2 ^ align ≡ word
  fields word = div-add-mod' word (2 ^ align)

  split_word : 2 ^ 64 ≡ 2 ^ (64 - align) * 2 ^ align
  split_word =
      ap (λ (e : ℕ). 2 ^ e) (let e : 64 ≡ 64 - align + align = omega arith in e)
      ∙ pow-add 2 (64 - align) align

  complement-low_bits : complement (low_bits align) ≡ (2 ^ (64 - align) - 1) * 2 ^ align
  complement-low_bits =
      let whole : 2 ^ (64 - align) ≡ 2 ^ (64 - align) - 1 + 1 =
        omega (arith, one-le-pow (64 - align) 2 (omega arith)) in
      omega (arith, split_word, ap (λ (t : ℕ). t * 2 ^ align) whole, one-le-block)

  high-lt : (word : ℕ) → word < 2 ^ 64 → word / 2 ^ align < 2 ^ (64 - align)
  high-lt word small = (div-lt_iff_lt-mul (omega (arith, one-le-block))).1 (rw (← split_word) small)

  -- Clearing the low field keeps the high one.
  decompose_data-fields :
      (q r : ℕ)
      → r < 2 ^ align
      → q < 2 ^ (64 - align)
      → decompose_data align (q * 2 ^ align + r) ≡ q * 2 ^ align
  unfolding decompose_data
  decompose_data-fields q r low high =
      rw complement-low_bits (bit_and-high align (64 - align) q r low high)

  low-lt : (word : ℕ) → word % 2 ^ align < 2 ^ align
  low-lt word = mod-lt word (omega (arith, one-le-block))

  -- Taking the tag off is clearing the low field.
  pub decompose_data-eq :
      (word : ℕ) → word < 2 ^ 64 → decompose_data align word ≡ word / 2 ^ align * 2 ^ align
  decompose_data-eq word small =
      ap (decompose_data align) (sym (fields word))
      ∙ decompose_data-fields (word / 2 ^ align) (word % 2 ^ align) (low-lt word)
          (high-lt word small)

  pub bit_and-low_bits : (word : ℕ) → bit_and word (low_bits align) ≡ word % 2 ^ align
  bit_and-low_bits word =
      ap (λ (w : ℕ). bit_and w (2 ^ align - 1)) (sym (fields word))
      ∙ bit_and-low align (word / 2 ^ align) (word % 2 ^ align) (low-lt word)

  pub data_with_tag-eq :
      (word tag : ℕ)
      → word < 2 ^ 64
      → data_with_tag align word tag ≡ word / 2 ^ align * 2 ^ align + tag % 2 ^ align
  unfolding data_with_tag
  data_with_tag-eq word tag small =
      rw (bit_and-low_bits tag) (
        ap (λ (w : ℕ). bit_or w (tag % 2 ^ align))
          (unfold decompose_data in decompose_data-eq word small))
      ∙ bit_or-fields align (word / 2 ^ align) (tag % 2 ^ align) (low-lt tag)

  -- Of a word that was tagged, taking the tag off gives the pointer back, and the low bits are the tag, as
  -- much of it as fits; any tag that the word had before is gone.
  pub decompose_data-data_with_tag :
      (word tag : ℕ)
      → word < 2 ^ 64
      → (decompose_data align (data_with_tag align word tag) ≡ decompose_data align word)
        × (bit_and (data_with_tag align word tag) (low_bits align) ≡ tag % 2 ^ align)
  decompose_data-data_with_tag word tag small =
      let q = word / 2 ^ align in
      let r = tag % 2 ^ align in
      (
        ap (decompose_data align) (data_with_tag-eq word tag small)
            ∙ decompose_data-fields q r (low-lt tag) (high-lt word small)
            ∙ sym (decompose_data-eq word small),
        ap (λ (w : ℕ). bit_and w (2 ^ align - 1)) (data_with_tag-eq word tag small)
            ∙ bit_and-low align q r (low-lt tag),
      )

  -- A pointer passes `ensure_aligned`, which panics otherwise, exactly when it has no bit that taking the
  -- tag off would clear.
  pub ensure_aligned_iff :
      (raw : ℕ)
      → raw < 2 ^ 64
      → (ensure_aligned align raw ≡ done tt) ↔ (decompose_data align raw ≡ raw)
  unfolding ensure_aligned
  ensure_aligned_iff raw small = (
    (λ passes.
        ground (arith, bit_and-low_bits raw, decompose_data-eq raw small, fields raw, passes)),
    (λ kept. ground (arith, bit_and-low_bits raw, decompose_data-eq raw small, fields raw, kept)),
  )

  -- An aligned pointer that fits a word is what `as_raw` gives back, under any tag.
  pub decompose_data_aligned :
      (raw : ℕ) → raw < 2 ^ 64 → raw % 2 ^ align ≡ 0 → decompose_data align raw ≡ raw
  decompose_data_aligned raw small aligned = omega (arith, decompose_data-eq raw small, fields raw)

  pub ensure_aligned_passes : (raw : ℕ) → raw % 2 ^ align ≡ 0 → ensure_aligned align raw ≡ done tt
  unfolding ensure_aligned
  ensure_aligned_passes raw aligned = ground (arith, bit_and-low_bits raw)
