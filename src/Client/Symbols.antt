-- ===== src/Client/Symbols.antt =====
-- client_symbols.go: symbols by name, and the whole symbol table.
pub mod Table
use ads_go.Base.{
  ℕ, suc, Bool, List, [], Result, ok, err, panic, Error, invalid_response_length, ◌>>=◌, ◌>>◌,
  fail_if, ltb, ◌==◌, length, if◌then◌else◌,
}
use ads_go.Wire.{Bytes, uint_at}
use ads_go.NetId.{encode_string_to_plc_string_buffer}
use ads_go.Symbol.{AdsSymbol, parse_symbol, parse_entries}
use ads_go.Client.Commands.{AdsCommandRequest, Action, and_then, pure, read_raw, read_write_raw}

-- types.ADSReservedIndexGroup.
abbrev pub group_symbol_info_by_name_ex : ℕ
group_symbol_info_by_name_ex = 61449

abbrev pub group_symbol_upload : ℕ
group_symbol_upload = 61451

abbrev pub group_symbol_upload_info2 : ℕ
group_symbol_upload_info2 = 0xf00f

-- The number of symbols and the size of their table.
abbrev pub info_answer : Bytes → Result (ℕ × ℕ)
info_answer payload = do
  fail_if (ltb (length payload) 8) (invalid_response_length (length payload))
  symbol_count ← uint_at 0 4 payload
  symbol_size ← uint_at 4 8 payload
  ok (symbol_count, symbol_size)

module _ {S : Type 0} (send : AdsCommandRequest → Action S Bytes) where
  unfoldable pub get_symbol : ℕ → Bytes → Action S AdsSymbol
  get_symbol port path =
      and_then
        (read_write_raw send port group_symbol_info_by_name_ex 0 0xffffffff
          (encode_string_to_plc_string_buffer path))
        (λ payload. pure (parse_symbol payload))

  unfoldable pub upload_info : ℕ → Action S (ℕ × ℕ)
  upload_info port =
      and_then (read_raw send port group_symbol_upload_info2 0 24)
        (λ payload. pure (info_answer payload))

  -- The walk takes four bytes at least for each entry, so the fuel is enough.
  abbrev pub fetch : ℕ → ℕ → Action S (List AdsSymbol)
  fetch port size =
      if size == 0
      then pure (ok [])
      else and_then (read_raw send port group_symbol_upload 0 size)
          (λ blob. pure (ok (parse_entries (suc (length blob)) blob)))

  unfoldable pub upload_symbols : ℕ → Action S (List AdsSymbol)
  upload_symbols port = and_then (upload_info port) (λ info. fetch port info.1)
