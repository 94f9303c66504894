-- ===== src/Keyboard/Tests.antt =====
-- The keyboard at small states.
use lite_bsd.Prelude.{◌≡◌, refl, true, false, [], ◌∷◌, ◌++◌, replicate, arith}
use lite_bsd.Keyboard.{Keyboard, handle_nav_key, ctrl_char, press, decode, keyboard_available}
use lite_bsd.Keyboard.Queue.{IsOrdered, waiting}
use lite_bsd.Keyboard.Keys.{scan, read, run_keys, run_keys-queue}

-- As after `keyboard_init`.
abbrev idle : Keyboard
idle = record {
  key_buffer = replicate 256 0;
  buffer_head = 0;
  buffer_tail = 0;
  shift_down = false;
  ctrl_down = false;
  alt_down = false;
  caps_lock = false;
  e0_prefix = false;
}

idle-IsOrdered : IsOrdered idle
unfolding keyboard_available
idle-IsOrdered = record {
  ring = record {
    whole = refl;
    head_in = omega arith;
    tail_in = omega arith;
    fits = omega arith;
    ahead = λ h. refl;
    behind = λ h. absurd (omega arith);
  };
}

-- Shift is held while the key of `a` is pressed, and then control.
decode_shifted : (decode 0x1e (record idle { shift_down = true })).1 ≡ 65 ∷ []
unfolding decode press handle_nav_key ctrl_char
decode_shifted = refl

decode_control : (decode 0x1e (record idle { ctrl_down = true })).1 ≡ 1 ∷ []
unfolding decode press handle_nav_key ctrl_char
decode_control = refl

run_keys-queue_example :
    IsOrdered (run_keys (scan 0x2a ∷ scan 0x1e ∷ read ∷ scan 0x48 ∷ []) idle).0
    × (waiting idle ++ (run_keys (scan 0x2a ∷ scan 0x1e ∷ read ∷ scan 0x48 ∷ []) idle).1
        ≡ (run_keys (scan 0x2a ∷ scan 0x1e ∷ read ∷ scan 0x48 ∷ []) idle).2
          ++ waiting (run_keys (scan 0x2a ∷ scan 0x1e ∷ read ∷ scan 0x48 ∷ []) idle).0)
run_keys-queue_example =
    run_keys-queue (scan 0x2a ∷ scan 0x1e ∷ read ∷ scan 0x48 ∷ []) idle idle-IsOrdered
