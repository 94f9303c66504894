-- ===== src/Keyboard/Keys.antt =====
-- What the keys do to the queue of characters of src/drivers/keyboard.c.
use lite_bsd.Prelude.{
  ℕ, ◌+◌, ◌-◌, ◌%◌, ◌≡◌, refl, sym, ap, ◌∙◌, Bool, true, false, not, List, [], ◌∷◌, ◌++◌, leb,
  if◌then◌else◌, take, append-nil, append_assoc,
}
use mathlib.Core.Path.{subst}
use lite_bsd.Circle.{items, IsCircle}
use lite_bsd.Keyboard.{
  Keyboard, handle_nav_key, plain_text, press, release, nav_or_none, press_extended,
  release_extended, decode, keyboard_handler, keyboard_available, keyboard_trygetc,
}
use lite_bsd.Keyboard.Queue.{IsOrdered, waiting, taken, queue_str-Gains, keyboard_trygetc-queue}

-- A press or a release of a key, and a read.
pub data Event : Type 0 where
  scan : ℕ → Event
  read : Event

-- The queue is as it was.
record SameQueue (k : Keyboard) (x : Keyboard × List ℕ) : Type 0 where
  buffer : x.0.key_buffer ≡ k.key_buffer
  head : x.0.buffer_head ≡ k.buffer_head
  tail : x.0.buffer_tail ≡ k.buffer_tail

SameQueue-if :
    (k : Keyboard) (b : Bool) (x y : Keyboard × List ℕ)
    → SameQueue k x
    → SameQueue k y
    → SameQueue k (if b then x else y)
SameQueue-if k true x y f g = f
SameQueue-if k false x y f g = g

-- Only the keys that are held change.
held :
    (k : Keyboard) (shift ctrl alt caps prefix : Bool) (text : List ℕ)
    → SameQueue k (
      record k {
        shift_down = shift;
        ctrl_down = ctrl;
        alt_down = alt;
        caps_lock = caps;
        e0_prefix = prefix;
      },
      text,
    )
held k shift ctrl alt caps prefix text = record { buffer = refl; head = refl; tail = refl }

press-SameQueue : (scancode : ℕ) (k : Keyboard) → SameQueue k (press scancode k)
unfolding press
press-SameQueue scancode k =
    SameQueue-if k _ _ _ (held k true k.ctrl_down k.alt_down k.caps_lock k.e0_prefix []) (
      SameQueue-if k _ _ _ (held k k.shift_down true k.alt_down k.caps_lock k.e0_prefix []) (
        SameQueue-if k _ _ _ (held k k.shift_down k.ctrl_down true k.caps_lock k.e0_prefix []) (
          SameQueue-if k _ _ _
            (held k k.shift_down k.ctrl_down k.alt_down (not k.caps_lock) k.e0_prefix [])
            (held k k.shift_down k.ctrl_down k.alt_down k.caps_lock k.e0_prefix
              (plain_text scancode k (handle_nav_key scancode k))))))

release-SameQueue : (code : ℕ) (k : Keyboard) → SameQueue k (release code k)
unfolding release
release-SameQueue code k =
    SameQueue-if k _ _ _ (held k false k.ctrl_down k.alt_down k.caps_lock k.e0_prefix []) (
      SameQueue-if k _ _ _ (held k k.shift_down false k.alt_down k.caps_lock k.e0_prefix []) (
        SameQueue-if k _ _ _ (held k k.shift_down k.ctrl_down false k.caps_lock k.e0_prefix [])
          (held k k.shift_down k.ctrl_down k.alt_down k.caps_lock k.e0_prefix [])))

press_extended-SameQueue : (scancode : ℕ) (k : Keyboard) → SameQueue k (press_extended scancode k)
unfolding press_extended
press_extended-SameQueue scancode k =
    SameQueue-if k _ _ _ (held k k.shift_down true k.alt_down k.caps_lock k.e0_prefix []) (
      SameQueue-if k _ _ _ (held k k.shift_down k.ctrl_down true k.caps_lock k.e0_prefix []) (
        SameQueue-if k _ _ _
          (held k k.shift_down k.ctrl_down k.alt_down k.caps_lock k.e0_prefix (10 ∷ []))
          (SameQueue-if k _ _ _
            (held k k.shift_down k.ctrl_down k.alt_down k.caps_lock k.e0_prefix (47 ∷ []))
            (held k k.shift_down k.ctrl_down k.alt_down k.caps_lock k.e0_prefix
              (nav_or_none (handle_nav_key scancode k))))))

release_extended-SameQueue : (code : ℕ) (k : Keyboard) → SameQueue k (release_extended code k)
unfolding release_extended
release_extended-SameQueue code k =
    SameQueue-if k _ _ _ (held k k.shift_down false k.alt_down k.caps_lock k.e0_prefix []) (
      SameQueue-if k _ _ _ (held k k.shift_down k.ctrl_down false k.caps_lock k.e0_prefix [])
        (held k k.shift_down k.ctrl_down k.alt_down k.caps_lock k.e0_prefix []))

decode-SameQueue : (scancode : ℕ) (k : Keyboard) → SameQueue k (decode scancode k)
unfolding decode
decode-SameQueue scancode k =
    let k' = record k { e0_prefix = false } in
    let e =
      SameQueue-if k' (leb 128 scancode) (release_extended (scancode - 128) k')
        (press_extended scancode k') (release_extended-SameQueue (scancode - 128) k')
        (press_extended-SameQueue scancode k') in
    SameQueue-if k _ _ _ (held k k.shift_down k.ctrl_down k.alt_down k.caps_lock true []) (
      SameQueue-if k _ _ _ (record { buffer = e.buffer; head = e.head; tail = e.tail })
        (SameQueue-if k _ _ _ (release-SameQueue (scancode - 128) k) (press-SameQueue scancode k)))

same_queue :
    (k : Keyboard) (x : Keyboard × List ℕ)
    → SameQueue k x
    → IsOrdered k
    → IsOrdered x.0 × (keyboard_available x.0 ≡ keyboard_available k) × (waiting x.0 ≡ waiting k)
unfolding keyboard_available
same_queue k x s q =
    let n = λ (h t : ℕ). (h + 256 - t) % 256 in
    (
      record {
        ring =
            subst
              (λ b.
                IsCircle 256 x.0.buffer_tail x.0.buffer_head (n x.0.buffer_head x.0.buffer_tail) b)
              (sym s.buffer)
              (subst (λ h. IsCircle 256 x.0.buffer_tail h (n h x.0.buffer_tail) k.key_buffer)
                (sym s.head)
                (subst (λ t. IsCircle 256 t k.buffer_head (n k.buffer_head t) k.key_buffer)
                  (sym s.tail) q.ring));
      },
      ap (λ h. n h x.0.buffer_tail) s.head ∙ ap (λ t. n k.buffer_head t) s.tail,
      ap (λ b. items 0 256 (n x.0.buffer_head x.0.buffer_tail) x.0.buffer_tail b) s.buffer
          ∙ ap (λ h. items 0 256 (n h x.0.buffer_tail) x.0.buffer_tail k.key_buffer) s.head
          ∙ ap (λ t. items 0 256 (n k.buffer_head t) t k.key_buffer) s.tail,
    )

keyboard_handler-queue :
    (scancode : ℕ) (k : Keyboard)
    → IsOrdered k
    → IsOrdered (keyboard_handler scancode k)
      × (waiting (keyboard_handler scancode k)
          ≡ waiting k ++ take (255 - keyboard_available k) (decode scancode k).1)
unfolding keyboard_handler
keyboard_handler-queue scancode k q =
    let x = decode scancode k in
    let s = same_queue k x (decode-SameQueue scancode k) q in
    let g = queue_str-Gains x.1 x.0 s.0 in
    (
      g.0,
      g.2
          ∙ ap (λ l. l ++ take (255 - keyboard_available x.0) x.1) s.2
          ∙ ap (λ n. waiting k ++ take (255 - n) x.1) s.1,
    )

-- The keyboard afterwards, the characters that were taken in and those that were read.
unfoldable pub run_keys : List Event → Keyboard → Keyboard × List ℕ × List ℕ
run_keys [] k = (k, [], [])
run_keys (scan code ∷ events) k =
    let (k', typed, out) = run_keys events (keyboard_handler code k) in
    (k', take (255 - keyboard_available k) (decode code k).1 ++ typed, out)
run_keys (read ∷ events) k =
    let x = keyboard_trygetc k in
    let (k', typed, out) = run_keys events x.0 in (k', typed, taken x.1 ++ out)

-- A keyboard whose queue is in order is a queue of at most 255 characters: whatever keys are pressed and whatever is read in
-- whatever order, the characters that were read and those that still wait are those that waited
-- before and those of the keys, as far as there was room, in their order.
pub run_keys-queue :
    (events : List Event) (k : Keyboard)
    → IsOrdered k
    → IsOrdered (run_keys events k).0
      × (waiting k ++ (run_keys events k).1
          ≡ (run_keys events k).2 ++ waiting (run_keys events k).0)
unfolding run_keys
run_keys-queue [] k q = (q, append-nil (waiting k))
run_keys-queue (scan code ∷ events) k q =
    let h = keyboard_handler-queue code k q in
    let k1 = keyboard_handler code k in
    let ih = run_keys-queue events k1 h.0 in
    (
      ih.0,
      sym (
            append_assoc (waiting k) (take (255 - keyboard_available k) (decode code k).1)
              (run_keys events k1).1)
          ∙ ap (λ l. l ++ (run_keys events k1).1) (sym h.1)
          ∙ ih.1,
    )
run_keys-queue (read ∷ events) k q =
    let g = keyboard_trygetc-queue k q in
    let x = keyboard_trygetc k in
    let ih = run_keys-queue events x.0 g.0 in
    (
      ih.0,
      ap (λ l. l ++ (run_keys events x.0).1) g.1
          ∙ append_assoc (taken x.1) (waiting x.0) (run_keys events x.0).1
          ∙ ap (λ l. taken x.1 ++ l) ih.1
          ∙ sym
              (append_assoc (taken x.1) (run_keys events x.0).2 (waiting (run_keys events x.0).0)),
    )
