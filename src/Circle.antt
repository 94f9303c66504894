-- ===== src/Circle.antt =====
-- Circular buffers as the C code keeps them: an array with the place of the first element, the place
-- behind the last one and a count. Pipes, the receive buffers of sockets and the queue of the
-- keyboard are such buffers.
use native.Mathlib.Nat.{mod-eq_of_lt, mod_self}
use lite_bsd.Prelude.{
  ℕ, zero, suc, ◌+◌, ◌%◌, ◌≤◌, ◌<◌, ◌≡◌, ◌≢◌, refl, sym, ap, ◌∙◌, List, [], ◌∷◌, ◌++◌, arith,
  get_or, set, length, length-set,
}

-- `n` elements from the place `head` on, round the end of the array.
abbrev pub items {ℓ} : {A : Type ℓ} → A → ℕ → ℕ → ℕ → List A → List A
items d size zero head buf = []
items d size (suc n) head buf = get_or buf head d ∷ items d size n ((head + 1) % size) buf

pub record IsCircle {ℓ} {A : Type ℓ} (size head tail count : ℕ) (buf : List A) : Type 0 where
  pub whole : length buf ≡ size
  pub head_in : head < size
  pub tail_in : tail < size
  pub fits : count ≤ size
  pub ahead : head + count < size → tail ≡ head + count
  pub behind : size ≤ head + count → tail + size ≡ head + count

-- The step to the next place.
pub next-lem :
    (size pos : ℕ)
    → pos < size
    → ((pos + 1 < size) → (pos + 1) % size ≡ pos + 1) × (size ≤ pos + 1 → (pos + 1) % size ≡ 0)
next-lem size pos h =
    (λ inner. mod-eq_of_lt inner, λ last. ap (λ k. k % size) (end last) ∙ mod_self size)
  where
    end : size ≤ pos + 1 → pos + 1 ≡ size
    end last = omega arith

module _ {ℓ} {A : Type ℓ} (d : A) where
  pub get_or-set_self :
      (buf : List A) (i : ℕ) (v : A) → i < length buf → get_or (set buf i v) i d ≡ v
  get_or-set_self [] i v h = absurd (omega arith)
  get_or-set_self (x ∷ buf) zero v h = refl
  get_or-set_self (x ∷ buf) (suc i) v h = get_or-set_self buf i v (omega arith)

  get_or-set_ne :
      (buf : List A) (i j : ℕ) (v : A) → i ≢ j → get_or (set buf i v) j d ≡ get_or buf j d
  get_or-set_ne [] i j v h = refl
  get_or-set_ne (x ∷ buf) zero zero v h = absurd (h refl)
  get_or-set_ne (x ∷ buf) zero (suc j) v h = refl
  get_or-set_ne (x ∷ buf) (suc i) zero v h = refl
  get_or-set_ne (x ∷ buf) (suc i) (suc j) v h = get_or-set_ne buf i j v (λ e. h (ap suc e))

module _ {ℓ} {A : Type ℓ} where
  -- An element is taken at the head.
  pub IsCircle-take :
      (size head tail count : ℕ) (buf : List A)
      → IsCircle size head tail (suc count) buf
      → IsCircle size ((head + 1) % size) tail count buf
  IsCircle-take size head tail count buf c = record {
    whole = c.whole;
    head_in = ground (arith, next-lem size head c.head_in, c.head_in);
    tail_in = c.tail_in;
    fits = omega (arith, c.fits);
    ahead =
        ground
          (arith, next-lem size head c.head_in, c.ahead, c.behind, c.head_in, c.tail_in, c.fits);
    behind =
        ground
          (arith, next-lem size head c.head_in, c.ahead, c.behind, c.head_in, c.tail_in, c.fits);
  }

  -- An element is put at the tail, if there is room.
  pub IsCircle-put :
      (size head tail count : ℕ) (buf : List A) (v : A)
      → IsCircle size head tail count buf
      → count < size
      → IsCircle size head ((tail + 1) % size) (suc count) (set buf tail v)
  IsCircle-put size head tail count buf v c room = record {
    whole = length-set buf tail v ∙ c.whole;
    head_in = c.head_in;
    tail_in = ground (arith, next-lem size tail c.tail_in, c.tail_in);
    fits = room;
    ahead = ground (arith, next-lem size tail c.tail_in, c.ahead, c.behind, c.head_in, c.tail_in);
    behind = ground (arith, next-lem size tail c.tail_in, c.ahead, c.behind, c.head_in, c.tail_in);
  }

  pub items-put :
      (d : A) (size count head tail : ℕ) (buf : List A) (v : A)
      → IsCircle size head tail count buf
      → count < size
      → items d size (suc count) head (set buf tail v) ≡ items d size count head buf ++ (v ∷ [])
  items-put d size zero head tail buf v c room =
      let at : tail ≡ head = omega (arith, c.ahead (omega (arith, c.head_in))) in
      ap (λ x. x ∷ [])
        (ap (λ i. get_or (set buf tail v) i d) (sym at)
          ∙ get_or-set_self d buf tail v (omega (arith, c.whole, c.tail_in)))
  items-put d size (suc count) head tail buf v c room =
      let apart : tail ≢ head = λ e. ground (arith, c.ahead, c.behind, c.head_in) in
      ap (λ x. x ∷ items d size (suc count) ((head + 1) % size) (set buf tail v))
        (get_or-set_ne d buf tail head v apart)
      ∙ ap (λ l. get_or buf head d ∷ l)
          (items-put d size count ((head + 1) % size) tail buf v
            (IsCircle-take size head tail count buf c) (omega arith))
