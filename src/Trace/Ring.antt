-- ===== src/Trace/Ring.antt =====
-- LineRing of src/trace/trace-writer.ts: a circular buffer of lines with a budget of bytes. The array
-- is a function of the index; a slot that is undefined is `none`. The length in UTF-8, Node's
-- Buffer.byteLength, is a parameter.
pub mod Positions
pub mod Queue
pub mod Represents
pub mod Refines
use kiro_fabric.Prelude.{
  ℕ, zero, suc, ◌+◌, ◌-◌, ◌%◌, Bool, ◌&&◌, ◌||◌, ltb, leb, ◌==◌, if◌then◌else◌, List, [], ◌∷◌,
  Option, none, some, Text,
}

pub record LineRing : Type 0 where
  pub capacity : ℕ
  pub max_bytes : ℕ
  pub slots : ℕ → Option Text
  pub start : ℕ
  pub size : ℕ
  pub bytes : ℕ

abbrev pub put : ℕ → Option Text → (ℕ → Option Text) → ℕ → Option Text
put index line slots i = if i == index then line else slots i

-- `slots[index]!`.
abbrev pub text_of : Option Text → Text
text_of none = []
text_of (some line) = line

abbrev pub new_ring : ℕ → ℕ → LineRing
new_ring capacity max_bytes = record {
  capacity = capacity;
  max_bytes = max_bytes;
  slots = λ i. none;
  start = 0;
  size = 0;
  bytes = 0;
}

-- The loop of `drain`, from an index on.
unfoldable pub collect : LineRing → ℕ → ℕ → List Text
collect r index zero = []
collect r index (suc n) =
    text_of (r.slots ((r.start + index) % r.capacity)) ∷ collect r (index + 1) n

unfoldable pub drain : LineRing → LineRing × List Text
drain r = (record r { slots = λ i. none; start = 0; size = 0; bytes = 0 }, collect r 0 r.size)

module _ (utf8_bytes : Text → ℕ) where
  -- The body of the loop of `push`.
  unfoldable pub evict : LineRing → LineRing
  evict r = record r {
    bytes = r.bytes - utf8_bytes (text_of (r.slots r.start));
    slots = put r.start none r.slots;
    start = (r.start + 1) % r.capacity;
    size = r.size - 1;
  }

  abbrev pub is_crowded : LineRing → ℕ → Bool
  is_crowded r line_bytes =
      ltb 0 r.size && (leb r.capacity r.size || ltb r.max_bytes (r.bytes + line_bytes))

  -- The loop, with the rounds left, and how many lines it has dropped.
  unfoldable pub make_room : ℕ → LineRing → ℕ → LineRing × ℕ
  make_room zero r line_bytes = (r, 0)
  make_room (suc rounds) r line_bytes =
      let rest = make_room rounds (evict r) line_bytes in
      if is_crowded r line_bytes then (rest.0, rest.1 + 1) else (r, 0)

  unfoldable pub push : LineRing → Text → LineRing × ℕ
  push r line =
      let room = make_room r.size r (utf8_bytes line) in
      let s = room.0 in
      if ltb r.max_bytes (utf8_bytes line) then (r, 1) else (
        record s {
          slots = put ((s.start + s.size) % s.capacity) (some line) s.slots;
          size = s.size + 1;
          bytes = s.bytes + utf8_bytes line;
        },
        room.1,
      )
