-- ===== src/OwnRef/Lifecycle.antt =====
-- What becomes of a box of src/queue/own_ref.rs as it passes through `Owned`, `Atomic` and `Shared`.
use co_queue.Base.{
  ℕ, ne→==, true, false, ◌%◌, ◌^◌, ◌≤◌, ◌<◌, ◌≡◌, ◌≢◌, refl, sym, ◌∙◌, Bool, none, some, update,
  update_self, update_ne, arith,
}
use co_queue.Base.Outcome.{Outcome, done, fault, ◌>>=◌}
use co_queue.OwnRef.{data_with_tag}
use co_queue.OwnRef.Words.{
  Boxes, debug_assert_nonzero, read_box-some, write_box-some, write_box-none, free_box-some,
  free_box-none,
}
use co_queue.OwnRef.Owned
use co_queue.OwnRef.Shared
use co_queue.OwnRef.Atomic
use co_queue.OwnRef.Tags.{
  decompose_data_aligned, ensure_aligned_passes, bit_and-low_bits, decompose_data-data_with_tag,
}

debug_assert_passes :
    (debug : Bool) (word : ℕ) → 0 < word → debug_assert_nonzero debug word ≡ done tt
debug_assert_passes true word pos = rw (ne→== word 0 (omega arith))
debug_assert_passes false word pos = refl

module _ {ℓ} {A : Type ℓ} (debug : Bool) (align : ℕ) where
  -- Box a value, publish it in an atomic cell, load and read it, take it back, and drop it.
  unfoldable pub lifecycle : (raw : ℕ) → A → Boxes A → Outcome (A × Boxes A)
  lifecycle raw x heap = do
    (heap₁, o) ← Owned.new align raw x heap
    let cell = Atomic.store_shared Atomic.null (Owned.into_shared o)
    y ← Shared.deref align heap₁ (Atomic.load cell)
    o₁ ← Shared.into_owned debug (Atomic.load cell)
    heap₂ ← Owned.drop align heap₁ o₁
    done (y, heap₂)

  -- Take a shared pointer back twice, and drop both.
  drop_twice : (raw : ℕ) → Boxes A → Outcome (Boxes A)
  drop_twice raw heap = do
    s ← Shared.from_raw align raw
    o ← Shared.into_owned debug s
    o' ← Shared.into_owned debug s
    heap₁ ← Owned.drop align heap o
    Owned.drop align heap₁ o'

module _ {ℓ} {A : Type ℓ} (debug : Bool) (align : ℕ) (narrow : align ≤ 64) where
  -- A box that passes through an atomic cell is read as it was made, and its drop leaves the heap as it
  -- was before; the allocator's address must be aligned, not null, and free.
  pub lifecycle_lem :
      (raw : ℕ) (x : A) (heap : Boxes A)
      → 0 < raw
      → raw < 2 ^ 64
      → raw % 2 ^ align ≡ 0
      → heap raw ≡ none
      → (heap' : Boxes A) × (lifecycle debug align raw x heap ≡ done (x, heap'))
        × ((r : ℕ) → heap' r ≡ heap r)
  unfolding lifecycle Owned.new Shared.deref Shared.into_owned Owned.from_usize Owned.drop
  lifecycle_lem raw x heap pos small aligned free =
      let heap₁ = update heap raw (some x) in
      let boxed : heap₁ raw ≡ some x = update_self heap raw (some x) in
      (
        update heap₁ raw none,
        rw
            (
              ensure_aligned_passes align narrow raw aligned,
              decompose_data_aligned align narrow raw small aligned,
              read_box-some heap₁ raw x boxed,
              debug_assert_passes debug raw pos,
              decompose_data_aligned align narrow raw small aligned,
              free_box-some heap₁ raw x boxed,
            )
            refl,
        λ r. ground (arith, free),
      )

  -- Two `Owned`s made of one shared pointer to a box are a double free.
  drop_twice_faults :
      (raw : ℕ) (x : A) (heap : Boxes A)
      → 0 < raw
      → raw < 2 ^ 64
      → raw % 2 ^ align ≡ 0
      → heap raw ≡ some x
      → drop_twice debug align raw heap ≡ fault
  unfolding drop_twice Shared.from_raw Shared.into_owned Owned.from_usize Owned.drop
  drop_twice_faults raw x heap pos small aligned here =
      rw
        (
          ensure_aligned_passes align narrow raw aligned,
          debug_assert_passes debug raw pos,
          decompose_data_aligned align narrow raw small aligned,
          free_box-some heap raw x here,
        )
        (free_box-none (update heap raw none) raw (update_self heap raw none))

module _ {ℓ} {A : Type ℓ} (align : ℕ) (narrow : align ≤ 64) where
  -- On a pointer with no tag, what is written through `deref_mut` is what `deref` reads.
  pub deref-deref_mut :
      (raw : ℕ) (x y : A) (heap : Boxes A)
      → raw < 2 ^ 64
      → raw % 2 ^ align ≡ 0
      → heap raw ≡ some y
      → (heap' : Boxes A) × (Owned.deref_mut heap (record { word = raw }) x ≡ done heap')
        × (Owned.deref align heap' (record { word = raw }) ≡ done x)
        × ((r : ℕ) → r ≢ raw → heap' r ≡ heap r)
  unfolding Owned.deref Owned.deref_mut
  deref-deref_mut raw x y heap small aligned here = (
    update heap raw (some x),
    write_box-some heap raw y x here,
    rw (decompose_data_aligned align narrow raw small aligned)
        (read_box-some (update heap raw (some x)) raw x (update_self heap raw (some x))),
    λ r ne. update_ne heap raw (some x) r (λ e. ne (sym e)),
  )

  -- On a pointer with a tag, `deref` reads the value and `deref_mut` writes where no box is.
  pub deref_mut-data_with_tag :
      (raw tag : ℕ) (x y : A) (heap : Boxes A)
      → raw < 2 ^ 64
      → raw % 2 ^ align ≡ 0
      → heap raw ≡ some y
      → tag % 2 ^ align ≢ 0
      → ((r : ℕ) → r % 2 ^ align ≢ 0 → heap r ≡ none)
      → (Owned.deref align heap (record { word = data_with_tag align raw tag }) ≡ done y)
        × (Owned.deref_mut heap (record { word = data_with_tag align raw tag }) x ≡ fault)
  unfolding Owned.deref Owned.deref_mut
  deref_mut-data_with_tag raw tag x y heap small aligned here tagged boxed =
      let word : ℕ = data_with_tag align raw tag in
      let (base, low) = decompose_data-data_with_tag align narrow raw tag small in
      (
        rw (base ∙ decompose_data_aligned align narrow raw small aligned)
            (read_box-some heap raw y here),
        write_box-none heap word x
            (boxed word (λ e. tagged (sym low ∙ bit_and-low_bits align narrow word ∙ e))),
      )
