-- ===== src/Dns/Names.antt =====
-- encode_domain_name and read_domain_name: names in questions and answers.
pub mod Bounds
pub mod Pointers
pub mod Wire
pub mod Skip
mod Tests
use simple_socks.Common.{
  ℕ, zero, suc, ◌+◌, ◌-◌, ◌*◌, ◌%◌, Bool, true, false, not, Option, none, some, List, [], ◌∷◌, ltb,
  leb, ◌==◌, if◌then◌else◌, ◌>>=◌, load, store, copy_to, length,
}
use simple_socks.Common.IoError.{IoError, ok, error}
use simple_socks.PacketBuffer.{PacketBuffer, read_front}
use simple_socks.Dns.{name_max}

-- The loop of encode_domain_name, from byte `i` down: a dot becomes the length of the label behind it.
unfoldable pub encode_labels : ℕ → ℕ → List ℕ → Option (ℕ × List ℕ)
encode_labels zero labelsz bytes = some (labelsz, bytes)
encode_labels (suc i) labelsz bytes = do
  x ← load bytes (suc i)
  bytes' ← store bytes (suc i) (labelsz % 256)
  let dot = x == b'.'
  encode_labels i (if dot then 0 else labelsz + 1) (if dot then bytes' else bytes)

-- encode_domain_name, with the length of the name
unfoldable pub encode_domain_name : List ℕ → List ℕ → Option (List ℕ)
encode_domain_name dest dn = do
  copied ← copy_to dest 1 dn
  ended ← store copied (length dn + 1) 0
  (labelsz, bytes) ← encode_labels (length dn) 0 ended
  store bytes 0 (labelsz % 256)

-- The code of the read, the offset behind the name, the name's array if there is one, and
-- *total_length.
abbrev pub NameRead : Type 0
NameRead = IoError × ℕ × Option (List ℕ) × ℕ

-- _l_end: the last dot becomes the end of the string.
unfoldable pub name_end : IoError → ℕ → Option (List ℕ) → ℕ → Option NameRead
name_end rc offset none total = some (rc, offset, none, total)
name_end rc offset (some name) total = do
  ended ← store name (total - 1) 0
  some (rc, offset, some ended, total)

abbrev pub is_wanted : Option (List ℕ) → Bool
is_wanted none = false
is_wanted (some name) = true

-- A label and its dot, put into the array.
unfoldable pub add_label : Option (List ℕ) → ℕ → List ℕ → ℕ → Option (Option (List ℕ) × ℕ)
add_label none total label size = some (none, total + size)
add_label (some name) total label size = do
  name' ← copy_to name total label
  name'' ← store name' (total + size) b'.'
  some (some name'', total + size + 1)

-- The value of a byte that was read.
abbrev pub octet : List ℕ → ℕ
octet [] = 0
octet (x ∷ _) = x % 256

-- read_domain_name_with_total_length, with fuel for its loop and its calls of itself. A byte of 64
-- or more has one of the bits 0xC0.
unfoldable pub read_name : ℕ → PacketBuffer → ℕ → Option (List ℕ) → ℕ → Option NameRead
read_name zero b offset name total = none
read_name (suc fuel) b offset name total = do
  (found, l, offset1) ← read_front true b offset 1
  let size = octet l
  let compressed : Option NameRead = do
    (found', low, offset2) ← read_front true b offset1 1
    let jump : Option NameRead = do
      (rc, _, name', total') ← read_name fuel b ((size % 64) * 256 + octet low) name total
      some (rc, offset2, name', total')
    if not found' then name_end error offset2 name total else jump
  let plain : Option NameRead = do
    (found', label, offset2) ← read_front (is_wanted name) b offset1 size
    let more : Option NameRead = do
      (name', total') ← add_label name total label size
      read_name fuel b offset2 name' total'
    if not found' then name_end error offset2 name total else more
  if not found
      then name_end error offset1 name total
      else if size == 0
      then name_end ok offset1 name total
      else if leb 64 size
      then compressed
      else if ltb name_max (total + size)
      then name_end error offset1 name total
      else plain

-- read_domain_name
unfoldable pub read_domain_name : ℕ → PacketBuffer → ℕ → Option (List ℕ) → Option NameRead
read_domain_name fuel b offset name = read_name fuel b offset name 0
