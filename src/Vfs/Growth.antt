-- ===== src/Vfs/Growth.antt =====
-- The growing of a buffer in `vfs_write` and `vfs_truncate` of src/vfs.c.
use lite_bsd.Prelude.{
  ℕ, zero, suc, ◌*◌, ◌%◌, ◌^◌, ◌≤◌, ◌<◌, ◌≡◌, refl, ◌⊎◌, inl, inr, true, none, some, ltb,
  Bool-cases, arith,
}
use lite_bsd.Vfs.Node.{double}

-- `capacity` doubled `k` times, without wrapping.
abbrev pub doubled : ℕ → ℕ → ℕ
doubled zero capacity = capacity
doubled (suc k) capacity = doubled k (capacity * 2)

-- Up to 2^31 bytes the loop ends with room for them, and for less than twice as many unless there was
-- room before.
pub double_total :
    (k capacity required : ℕ)
    → 0 < capacity
    → required ≤ 2 ^ 31
    → required ≤ doubled k capacity
    → (c : ℕ) × (double (suc k) capacity required ≡ some c)
      × (required ≤ c)
      × ((c ≡ capacity) ⊎ (c < 2 * required))
unfolding double
double_total zero capacity required pos small h = (capacity, ground arith, h, inl refl)
double_total (suc k) capacity required pos small h = elim (Bool-cases (ltb capacity required)) [
  | inr done ↦ (capacity, rw done, ground arith, inl refl)
  | inl more ↦
      let wide : capacity * 2 % 2 ^ 32 ≡ capacity * 2 = ground arith in
      let (c, e, room, near) =
        double_total k (capacity * 2 % 2 ^ 32) required (omega arith) small (rw wide h) in
      (
        c,
        rw more e,
        room,
        elim near [ inl same ↦ inr (ground (arith, same)) | inr below ↦ inr below ],
      )
]

double_next :
    (capacity required : ℕ)
    → capacity < required
    → ((fuel : ℕ) → double fuel (capacity * 2 % 2 ^ 32) required ≡ none)
    → (fuel : ℕ) → double fuel capacity required ≡ none
unfolding double
double_next capacity required h rest zero = refl
double_next capacity required h rest (suc fuel) =
    let more : ltb capacity required ≡ true = ground arith in rw more (rest fuel)

double_zero : (required : ℕ) → 0 < required → (fuel : ℕ) → double fuel 0 required ≡ none
unfolding double
double_zero required h zero = refl
double_zero required h (suc fuel) =
    let more : ltb 0 required ≡ true = ground arith in rw more (double_zero required h fuel)

pub le-doubled : (k capacity : ℕ) → capacity ≤ doubled k capacity
le-doubled zero capacity = omega arith
le-doubled (suc k) capacity = omega (arith, le-doubled k (capacity * 2))

-- Beyond 2^31 a capacity that is a power of two goes round to 0 and stays there: the loop does not
-- end, whatever the fuel.
pub double_stuck :
    (k capacity required : ℕ)
    → doubled k capacity ≡ 2 ^ 31
    → 2 ^ 31 < required
    → (fuel : ℕ) → double fuel capacity required ≡ none
double_stuck zero capacity required e big =
    double_next capacity required (omega arith) (rw e (double_zero required (omega arith)))
double_stuck (suc k) capacity required e big =
    let below = le-doubled k (capacity * 2) in
    let wide : capacity * 2 % 2 ^ 32 ≡ capacity * 2 = omega (arith, below) in
    double_next capacity required (omega (arith, below))
      (rw wide (double_stuck k (capacity * 2) required e big))
