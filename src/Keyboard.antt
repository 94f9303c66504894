-- ===== src/Keyboard.antt =====
-- The keyboard of src/drivers/keyboard.c: scan codes, the keys that are held down and the queue of
-- characters. A string that is queued is a list of its characters.
pub mod Queue
pub mod Keys
mod Tests
use lite_bsd.Prelude.{
  ℕ, zero, suc, ◌+◌, ◌-◌, ◌%◌, Bool, true, false, not, ◌&&◌, ◌||◌, Option, none, some, List, [],
  ◌∷◌, ◌++◌, ◌==◌, ltb, leb, if◌then◌else◌, get_or, set,
}

pub record Keyboard : Type 0 where
  pub key_buffer : List ℕ
  pub buffer_head : ℕ
  pub buffer_tail : ℕ
  pub shift_down : Bool
  pub ctrl_down : Bool
  pub alt_down : Bool
  pub caps_lock : Bool
  pub e0_prefix : Bool

-- The two tables; the rest of their 128 places is 0.
abbrev pub scancode_to_ascii : List ℕ
scancode_to_ascii =
    0 ∷ 27 ∷ 49 ∷ 50 ∷ 51 ∷ 52 ∷ 53 ∷ 54 ∷ 55 ∷ 56 ∷ 57 ∷ 48 ∷ 45 ∷ 61 ∷ 8 ∷ 9 ∷ 113 ∷ 119 ∷ 101
    ∷ 114 ∷ 116 ∷ 121 ∷ 117 ∷ 105 ∷ 111 ∷ 112 ∷ 91 ∷ 93 ∷ 10 ∷ 0 ∷ 97 ∷ 115 ∷ 100 ∷ 102 ∷ 103 ∷ 104
    ∷ 106 ∷ 107 ∷ 108 ∷ 59 ∷ 39 ∷ 96 ∷ 0 ∷ 92 ∷ 122 ∷ 120 ∷ 99 ∷ 118 ∷ 98 ∷ 110 ∷ 109 ∷ 44 ∷ 46 ∷ 47
    ∷ 0 ∷ 42 ∷ 0 ∷ 32 ∷ []

abbrev pub scancode_shifted : List ℕ
scancode_shifted =
    0 ∷ 0 ∷ 33 ∷ 64 ∷ 35 ∷ 36 ∷ 37 ∷ 94 ∷ 38 ∷ 42 ∷ 40 ∷ 41 ∷ 95 ∷ 43 ∷ 0 ∷ 0 ∷ 81 ∷ 87 ∷ 69 ∷ 82
    ∷ 84 ∷ 89 ∷ 85 ∷ 73 ∷ 79 ∷ 80 ∷ 123 ∷ 125 ∷ 0 ∷ 0 ∷ 65 ∷ 83 ∷ 68 ∷ 70 ∷ 71 ∷ 72 ∷ 74 ∷ 75 ∷ 76
    ∷ 58 ∷ 34 ∷ 126 ∷ 0 ∷ 124 ∷ 90 ∷ 88 ∷ 67 ∷ 86 ∷ 66 ∷ 78 ∷ 77 ∷ 60 ∷ 62 ∷ 63 ∷ []

-- A character is lost where the queue is full.
unfoldable pub queue_char : ℕ → Keyboard → Keyboard
queue_char c k =
    let next_head = (k.buffer_head + 1) % 256 in
    if next_head == k.buffer_tail
    then k
    else record k { key_buffer = set k.key_buffer k.buffer_head c; buffer_head = next_head }

unfoldable pub queue_str : List ℕ → Keyboard → Keyboard
queue_str [] k = k
queue_str (c ∷ cs) k = queue_str cs (queue_char c k)

-- `"\033[A"`, with `1;5` or `1;3` before the letter.
abbrev pub arrow : Keyboard → ℕ → List ℕ
arrow k letter =
    if k.ctrl_down
    then 27 ∷ 91 ∷ 49 ∷ 59 ∷ 53 ∷ letter ∷ []
    else if k.alt_down
    then 27 ∷ 91 ∷ 49 ∷ 59 ∷ 51 ∷ letter ∷ []
    else 27 ∷ 91 ∷ letter ∷ []

abbrev pub home_end : Keyboard → ℕ → List ℕ
home_end k letter =
    if k.ctrl_down then 27 ∷ 91 ∷ 49 ∷ 59 ∷ 53 ∷ letter ∷ [] else 27 ∷ 91 ∷ letter ∷ []

abbrev pub page : Keyboard → ℕ → List ℕ
page k digit =
    if k.ctrl_down then 27 ∷ 91 ∷ digit ∷ 59 ∷ 53 ∷ 126 ∷ [] else 27 ∷ 91 ∷ digit ∷ 126 ∷ []

-- What `handle_nav_key` queues; `none` where it returns 0.
unfoldable pub handle_nav_key : ℕ → Keyboard → Option (List ℕ)
handle_nav_key scancode k =
    if scancode == 0x48
    then some (arrow k 65)
    else if scancode == 0x50
    then some (arrow k 66)
    else if scancode == 0x4d
    then some (arrow k 67)
    else if scancode == 0x4b
    then some (arrow k 68)
    else if scancode == 0x47
    then some (home_end k 72)
    else if scancode == 0x4f
    then some (home_end k 70)
    else if scancode == 0x49
    then some (page k 53)
    else if scancode == 0x51
    then some (page k 54)
    else if scancode == 0x52
    then some (27 ∷ 91 ∷ 50 ∷ 126 ∷ [])
    else if scancode == 0x53
    then some (page k 51)
    else none

abbrev pub xor : Bool → Bool → Bool
xor a b = if a then not b else b

abbrev pub is_letter : ℕ → Bool
is_letter c = leb 97 c && leb c 122

-- The character of a key with shift and caps lock.
abbrev pub key_char : ℕ → Keyboard → ℕ
key_char scancode k =
    let c = get_or scancode_to_ascii scancode 0 in
    let shifted = get_or scancode_shifted scancode 0 in
    if is_letter c
    then (if xor k.shift_down k.caps_lock then c - 32 else c)
    else if k.shift_down && not (shifted == 0)
    then shifted
    else c

-- What ctrl makes of it, if it makes anything.
unfoldable pub ctrl_char : ℕ → ℕ → Option ℕ
ctrl_char scancode c =
    if leb 97 c && leb c 122
    then some (c - 97 + 1)
    else if leb 65 c && leb c 90
    then some (c - 65 + 1)
    else if (c == 64) || (c == 32)
    then some 0
    else if c == 91
    then some 27
    else if c == 92
    then some 28
    else if c == 93
    then some 29
    else if (c == 94) || (scancode == 7)
    then some 30
    else if (c == 95) || ((c == 45) || (scancode == 12))
    then some 31
    else if c == 8
    then some 127
    else none

abbrev pub or_plain : Keyboard → ℕ → Option ℕ → List ℕ
or_plain k c (some d) = d ∷ []
or_plain k c none = if k.alt_down then 27 ∷ c ∷ [] else c ∷ []

abbrev pub key_text : ℕ → Keyboard → List ℕ
key_text scancode k =
    let c = key_char scancode k in
    if c == 0 then [] else or_plain k c (if k.ctrl_down then ctrl_char scancode c else none)

-- What a key that is no modifier queues.
abbrev pub plain_text : ℕ → Keyboard → Option (List ℕ) → List ℕ
plain_text scancode k (some nav) = nav
plain_text scancode k none =
    if scancode == 0x4a
    then 45 ∷ []
    else if scancode == 0x4e
    then 43 ∷ []
    else if scancode == 0x0f
    then (if k.shift_down then 27 ∷ 91 ∷ 90 ∷ [] else 9 ∷ [])
    else key_text scancode k

-- The keys that are held afterwards, and what is queued.
unfoldable pub press : ℕ → Keyboard → Keyboard × List ℕ
press scancode k =
    if (scancode == 0x2a) || (scancode == 0x36)
    then (record k { shift_down = true }, [])
    else if scancode == 0x1d
    then (record k { ctrl_down = true }, [])
    else if scancode == 0x38
    then (record k { alt_down = true }, [])
    else if scancode == 0x3a
    then (record k { caps_lock = not k.caps_lock }, [])
    else (k, plain_text scancode k (handle_nav_key scancode k))

unfoldable pub release : ℕ → Keyboard → Keyboard × List ℕ
release code k =
    if (code == 0x2a) || (code == 0x36)
    then (record k { shift_down = false }, [])
    else if code == 0x1d
    then (record k { ctrl_down = false }, [])
    else if code == 0x38
    then (record k { alt_down = false }, [])
    else (k, [])

-- The keys with the prefix 0xE0.
abbrev pub nav_or_none : Option (List ℕ) → List ℕ
nav_or_none none = []
nav_or_none (some nav) = nav

unfoldable pub press_extended : ℕ → Keyboard → Keyboard × List ℕ
press_extended scancode k =
    if scancode == 0x1d
    then (record k { ctrl_down = true }, [])
    else if scancode == 0x38
    then (record k { alt_down = true }, [])
    else if scancode == 0x1c
    then (k, 10 ∷ [])
    else if scancode == 0x35
    then (k, 47 ∷ [])
    else (k, nav_or_none (handle_nav_key scancode k))

unfoldable pub release_extended : ℕ → Keyboard → Keyboard × List ℕ
release_extended code k =
    if code == 0x1d
    then (record k { ctrl_down = false }, [])
    else if code == 0x38
    then (record k { alt_down = false }, [])
    else (k, [])

abbrev pub extended : ℕ → Keyboard → Keyboard × List ℕ
extended scancode k =
    if leb 128 scancode then release_extended (scancode - 128) k else press_extended scancode k

abbrev pub plain : ℕ → Keyboard → Keyboard × List ℕ
plain scancode k = if leb 128 scancode then release (scancode - 128) k else press scancode k

unfoldable pub decode : ℕ → Keyboard → Keyboard × List ℕ
decode scancode k =
    if scancode == 0xe0
    then (record k { e0_prefix = true }, [])
    else if k.e0_prefix
    then extended scancode (record k { e0_prefix = false })
    else plain scancode k

-- `keyboard_handler` for the byte that the port gives.
unfoldable pub keyboard_handler : ℕ → Keyboard → Keyboard
keyboard_handler scancode k = let (k', text) = decode scancode k in queue_str text k'

unfoldable pub keyboard_available : Keyboard → ℕ
keyboard_available k = (k.buffer_head + 256 - k.buffer_tail) % 256

unfoldable pub keyboard_trygetc : Keyboard → Keyboard × Option ℕ
keyboard_trygetc k = if k.buffer_head == k.buffer_tail then (k, none) else (
  record k { buffer_tail = (k.buffer_tail + 1) % 256 },
  some (get_or k.key_buffer k.buffer_tail 0),
)

unfoldable pub keyboard_flush : Keyboard → Keyboard
keyboard_flush k = record k { buffer_tail = k.buffer_head }
