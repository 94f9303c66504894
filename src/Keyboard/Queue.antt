-- ===== src/Keyboard/Queue.antt =====
-- The queue of characters of src/drivers/keyboard.c.
use lite_bsd.Prelude.{
  ℕ, zero, suc, ◌+◌, ◌-◌, ◌%◌, ◌<◌, ◌≡◌, refl, sym, ap, ◌∙◌, inl, inr, true, false, Option, none,
  some, List, [], ◌∷◌, ◌++◌, ◌==◌, Bool-cases, arith, get_or, set, length, take, min, append-nil,
  append_assoc,
}
use mathlib.Core.Path.{subst}
use lite_bsd.Circle.{items, IsCircle, IsCircle-take, IsCircle-put, items-put}
use lite_bsd.Keyboard.{Keyboard, queue_char, queue_str, keyboard_available, keyboard_trygetc}

-- One place of the queue stays unused.
pub record IsOrdered (k : Keyboard) : Type 0 where
  pub ring : IsCircle 256 k.buffer_tail k.buffer_head (keyboard_available k) k.key_buffer

-- The characters that wait, in order.
abbrev pub waiting : Keyboard → List ℕ
waiting k = items 0 256 (keyboard_available k) k.buffer_tail k.key_buffer

-- The text goes behind the characters that wait, as far as there is room.
abbrev pub Gains : List ℕ → Keyboard → Keyboard → Type 0
Gains text k k' =
    IsOrdered k'
    × (keyboard_available k'
        ≡ keyboard_available k + min (255 - keyboard_available k) (length text))
    × (waiting k' ≡ waiting k ++ take (255 - keyboard_available k) text)

abbrev put_char : ℕ → Keyboard → Keyboard
put_char c k = record k {
  key_buffer = set k.key_buffer k.buffer_head c;
  buffer_head = (k.buffer_head + 1) % 256;
}

room-lem :
    (head tail : ℕ)
    → head < 256
    → tail < 256
    → ((head + 1) % 256 == tail) ≡ false
    → ((head + 256 - tail) % 256 < 255)
      × (((head + 1) % 256 + 256 - tail) % 256 ≡ suc ((head + 256 - tail) % 256))
room-lem head tail h t ne = ground arith

full-lem :
    (head tail : ℕ)
    → head < 256
    → tail < 256
    → ((head + 1) % 256 == tail) ≡ true
    → (head + 256 - tail) % 256 ≡ 255
full-lem head tail h t e = ground arith

no_text : (n : ℕ) → take {A = ℕ} n [] ≡ []
no_text zero = refl
no_text (suc n) = refl

put_char-Gains :
    (c : ℕ) (k : Keyboard)
    → IsOrdered k
    → ((k.buffer_head + 1) % 256 == k.buffer_tail) ≡ false
    → Gains (c ∷ []) k (put_char c k)
unfolding keyboard_available
put_char-Gains c k q ne =
    let room = room-lem k.buffer_head k.buffer_tail q.ring.tail_in q.ring.head_in ne in
    let n = (k.buffer_head + 256 - k.buffer_tail) % 256 in
    let buf = set k.key_buffer k.buffer_head c in
    (
      record {
        ring =
            subst (λ m. IsCircle 256 k.buffer_tail ((k.buffer_head + 1) % 256) m buf) (sym room.1)
              (IsCircle-put 256 k.buffer_tail k.buffer_head n k.key_buffer c q.ring
                (omega (arith, room.0)));
      },
      omega (arith, room.0, room.1),
      ap (λ m. items 0 256 m k.buffer_tail buf) room.1
          ∙ items-put 0 256 n k.buffer_tail k.buffer_head k.key_buffer c q.ring
              (omega (arith, room.0))
          ∙ ap (λ l. waiting k ++ l) (one (255 - n) (omega (arith, room.0))),
    )
  where
    one : (m : ℕ) → 0 < m → c ∷ [] ≡ take m (c ∷ [])
    one zero h = absurd (omega arith)
    one (suc m) h = ap (λ l. c ∷ l) (sym (no_text m))

full_queue :
    (k : Keyboard)
    → IsOrdered k
    → ((k.buffer_head + 1) % 256 == k.buffer_tail) ≡ true
    → keyboard_available k ≡ 255
unfolding keyboard_available
full_queue k q full = full-lem k.buffer_head k.buffer_tail q.ring.tail_in q.ring.head_in full

queue_char-Gains : (c : ℕ) (k : Keyboard) → IsOrdered k → Gains (c ∷ []) k (queue_char c k)
unfolding queue_char
queue_char-Gains c k q = elim (Bool-cases ((k.buffer_head + 1) % 256 == k.buffer_tail)) [
  | inr room ↦
      let e : queue_char c k ≡ put_char c k = rw room refl in
      subst (Gains (c ∷ []) k) (sym e) (put_char-Gains c k q room)
  | inl full ↦
      let e : queue_char c k ≡ k = rw full refl in
      let n : keyboard_available k ≡ 255 = full_queue k q full in
      let none_left : 255 - keyboard_available k ≡ 0 = omega (arith, n) in
      subst (Gains (c ∷ []) k) (sym e) (
        q,
        omega (arith, n),
        sym (append-nil (waiting k)) ∙ ap (λ m. waiting k ++ take m (c ∷ [])) (sym none_left),
      )
]

pub queue_str-Gains : (text : List ℕ) (k : Keyboard) → IsOrdered k → Gains text k (queue_str text k)
unfolding queue_str
queue_str-Gains [] k q = (
  q,
  omega arith,
  sym (append-nil (waiting k))
      ∙ ap (λ l. waiting k ++ l) (sym (no_text (255 - keyboard_available k))),
)
queue_str-Gains (c ∷ cs) k q =
    let one = queue_char-Gains c k q in
    let rest = queue_str-Gains cs (queue_char c k) one.0 in
    (
      rest.0,
      omega (arith, one.1, rest.1),
      rest.2
          ∙ ap (λ l. l ++ take (255 - keyboard_available (queue_char c k)) cs) one.2
          ∙ append_assoc (waiting k) (take (255 - keyboard_available k) (c ∷ []))
              (take (255 - keyboard_available (queue_char c k)) cs)
          ∙ ap (λ l. waiting k ++ l)
              (split (255 - keyboard_available k) (255 - keyboard_available (queue_char c k)) c cs
                (omega (arith, one.1))),
    )
  where
    split : (m n c : ℕ) (cs : List ℕ) → n ≡ m - 1 → take m (c ∷ []) ++ take n cs ≡ take m (c ∷ cs)
    split zero n c cs h = let e : n ≡ 0 = omega arith in ap (λ k. take k cs) e
    split (suc m) n c cs h =
        let e : n ≡ m = omega arith in
        ap (λ l. (c ∷ l) ++ take n cs) (no_text m) ∙ ap (λ k. c ∷ take k cs) e

-- A read takes the oldest character, if there is one.
abbrev pub taken : Option ℕ → List ℕ
taken none = []
taken (some c) = c ∷ []

less-lem :
    (head tail : ℕ)
    → head < 256
    → tail < 256
    → (head == tail) ≡ false
    → (head + 256 - tail) % 256 ≡ suc ((head + 256 - (tail + 1) % 256) % 256)
less-lem head tail h t ne = ground arith

took :
    (k : Keyboard)
    → IsOrdered k
    → (k.buffer_head == k.buffer_tail) ≡ false
    → IsOrdered (record k { buffer_tail = (k.buffer_tail + 1) % 256 })
      × (waiting k
          ≡ get_or k.key_buffer k.buffer_tail 0
            ∷ waiting (record k { buffer_tail = (k.buffer_tail + 1) % 256 }))
unfolding keyboard_available
took k q ne =
    let next = (k.buffer_tail + 1) % 256 in
    let n = (k.buffer_head + 256 - next) % 256 in
    let one_less : (k.buffer_head + 256 - k.buffer_tail) % 256 ≡ suc n =
      less-lem k.buffer_head k.buffer_tail q.ring.tail_in q.ring.head_in ne in
    (
      record {
        ring =
            IsCircle-take 256 k.buffer_tail k.buffer_head n k.key_buffer (
              subst (λ m. IsCircle 256 k.buffer_tail k.buffer_head m k.key_buffer) one_less q.ring);
      },
      ap (λ m. items 0 256 m k.buffer_tail k.key_buffer) one_less,
    )

pub keyboard_trygetc-queue :
    (k : Keyboard)
    → IsOrdered k
    → IsOrdered (keyboard_trygetc k).0
      × (waiting k ≡ taken (keyboard_trygetc k).1 ++ waiting (keyboard_trygetc k).0)
unfolding keyboard_trygetc
keyboard_trygetc-queue k q = elim (Bool-cases (k.buffer_head == k.buffer_tail)) [
  | inl nothing ↦ rw nothing (q, refl)
  | inr something ↦ rw something (took k q something)
]
