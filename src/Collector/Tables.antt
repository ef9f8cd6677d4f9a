-- ===== src/Collector/Tables.antt =====
-- `ParseTCP` of internal/collector/tcp.go. Texts are read as the code points of ASCII bytes: any other
-- character is refused, whatever it counts for.
use cpa_monitor.Base.{
  Bool, List, Option, Text, [], contains, cut, false, fields, if◌then◌else◌, inl, inr, is_empty,
  is_negative, is_none, leb, ltb, none, not, parse_uint, pos_part, some, str, suc, text_eq,
  trim_suffix, true, ℕ, ℤ, ◌&&◌, ◌==◌, ◌||◌, ◌∷◌, ◌⊎◌,
}
use cpa_monitor.Collector.{TcpUsage, Scan}

pub data TcpError : Type 0 where
  bad_service_port : TcpError
  few_fields bad_slot bad_slot_number bad_address bad_port bad_state table_read_failed :
      ℕ → TcpError

unfoldable pub is_hex_digit : ℕ → Bool
is_hex_digit c =
    (leb b'0' c && leb c b'9') || ((leb b'a' c && leb c b'f') || (leb b'A' c && leb c b'F'))

unfoldable pub all_hex : Text → Bool
all_hex [] = true
all_hex (c ∷ s) = is_hex_digit c && all_hex s

-- `isHex`.
unfoldable pub is_hex : Text → Bool
is_hex s = all_hex s && not (is_empty s)

-- The text of a state has two characters.
unfoldable pub has_two : Text → Bool
has_two (a ∷ b ∷ []) = true
has_two _ = false

-- The port of a local address; none where the address is malformed.
unfoldable pub port_text : Text → Option Text
port_text local = elim (cut b':' local) [
  | none ↦ none
  | some (address, port) ↦
      if is_empty address || (is_empty port || contains port (b':' ∷ []))
      then none
      else if not (is_hex address)
      then none
      else some port
]

-- A row counted.
unfoldable pub count_row : ℕ → ℕ → TcpUsage → TcpUsage
count_row service port u = record {
  total_connections = suc u.total_connections;
  service_port_connections =
      if port == service then suc u.service_port_connections else u.service_port_connections;
}

-- The state of a row, with its port.
unfoldable pub read_state : ℕ → ℕ → ℕ → Text → TcpUsage → TcpError ⊎ TcpUsage
read_state service line port state u =
    if not (has_two state) || is_none (parse_uint 16 8 state)
    then inl (bad_state line)
    else inr (count_row service port u)

-- The local address and the state of a row.
unfoldable pub read_address : ℕ → ℕ → Text → Text → TcpUsage → TcpError ⊎ TcpUsage
read_address service line local state u = elim (port_text local) [
  | none ↦ inl (bad_address line)
  | some text ↦ elim (parse_uint 16 16 text) [
    | none ↦ inl (bad_port line)
    | some port ↦ read_state service line port state u
  ]
]

-- A row with its slot.
unfoldable pub read_slot : ℕ → ℕ → Text → Text → Text → TcpUsage → TcpError ⊎ TcpUsage
read_slot service line slot local state u =
    if text_eq (trim_suffix b':' slot) slot || is_empty (trim_suffix b':' slot)
    then inl (bad_slot line)
    else if is_none (parse_uint 10 64 (trim_suffix b':' slot))
    then inl (bad_slot_number line)
    else read_address service line local state u

-- The header of the table.
unfoldable pub is_header : List Text → Bool
is_header (a ∷ b ∷ rest) = text_eq a (str "sl") && text_eq b (str "local_address")
is_header _ = false

unfoldable pub read_columns : ℕ → ℕ → List Text → TcpUsage → TcpError ⊎ TcpUsage
read_columns service line (slot ∷ local ∷ remote ∷ state ∷ rest) u =
    read_slot service line slot local state u
read_columns service line _ u = inl (few_fields line)

-- One round of the loop.
unfoldable pub read_row : ℕ → ℕ → List Text → TcpUsage → TcpError ⊎ TcpUsage
read_row service line fs u =
    if is_empty fs then inr u else if is_header fs then inr u else read_columns service line fs u

unfoldable pub read_rows : ℕ → Bool → ℕ → List Text → TcpError ⊎ TcpUsage → TcpError ⊎ TcpUsage
read_rows service failed line ls (inl e) = inl e
read_rows service failed line [] (inr u) = if failed then inl (table_read_failed line) else inr u
read_rows service failed line (l ∷ ls) (inr u) =
    read_rows service failed (suc line) ls (read_row service line (fields l) u)

-- `ParseTCP`.
unfoldable pub parse_tcp : Scan → ℤ → TcpError ⊎ TcpUsage
parse_tcp s service =
    if is_negative service || ltb 65535 (pos_part service)
    then inl bad_service_port
    else read_rows (pos_part service) s.failed 1 s.lines
        (inr (record { total_connections = 0; service_port_connections = 0 }))
