-- ===== src/Examples/Calls.antt =====
-- Commands, subscriptions and symbols against a device of memory cells.
use ads_go.Base.{
  ℕ, suc, ◌≡◌, refl, ap, Bool, true, false, [], ◌∷◌, ◌++◌, none, some, drop, take, ok, err, arith,
  ◌==◌, if◌then◌else◌, eqb_self, not_connected,
}
use ads_go.Base.Integer.{negsuc}
use ads_go.Wire.{Bytes, le_bytes, le_value, make_bytes}
use ads_go.AdsHeader.Accepts.{success_image}
use ads_go.Client.Commands.{
  AdsCommandRequest, Action, and_then, read_raw, write_raw, set_tc_system_to_config,
  set_tc_system_to_run,
}
use ads_go.Client.Commands.Memory.{Memory, read_raw-write_raw}
use ads_go.Client.Commands.Control.{control_outcome, set_tc_system_to-sends}
use ads_go.Client.Notifications.{lookup}
use ads_go.Client.Subscriptions.{
  SubscriptionSettings, ActiveSubscription, Session, with_defaults, add_subscription, unsubscribe,
  unsubscribe_all,
}
use ads_go.Client.Subscriptions.Table.{add_subscription-stores, unsubscribe-deletes}
use ads_go.Client.Subscriptions.Teardown.{unsubscribe_all-empties}
use ads_go.Symbol.{AdsSymbol, parse_symbol}
use ads_go.Symbol.RoundTrip.{symbol_image, IsPlainSymbol, parse_symbol-image}
use ads_go.Symbol.Upload.{table_image}

-- A cell for each index group: the group is read from the request, and a write replaces the cell.
abbrev pub Cells : Type 0
Cells = ℕ → Bytes

abbrev pub memory : AdsCommandRequest → Action Cells Bytes
memory request cells =
    let group = le_value (take 4 request.data_bytes) in
    if request.command == 2
    then (ok (success_image (cells group)), cells)
    else (ok (le_bytes 4 0), λ g. if g == group then drop 12 request.data_bytes else cells g)

abbrev memory_device : Memory memory
memory_device = record {
  cell = λ port group offset cells. cells (le_value (le_bytes 4 group));
  answers_read = λ port group offset cells. refl;
  answers_write = λ port group offset payload cells. (
    _,
    refl,
    ap (λ b. if b then payload else cells (le_value (le_bytes 4 group)))
        (eqb_self (le_value (le_bytes 4 group))),
  );
}

abbrev blank : Cells
blank = λ g. []

read_raw-write_raw_example :
    (and_then
      (write_raw memory 851 16448 0 (1 ∷ 2 ∷ []))
      (λ _. read_raw memory 851 16448 0 2)
      blank).0
    ≡ ok (1 ∷ 2 ∷ [])
read_raw-write_raw_example =
    read_raw-write_raw memory memory_device 851 16448 0 (1 ∷ 2 ∷ []) blank (omega arith)

-- A device in run mode that takes every other request.
abbrev running : AdsCommandRequest → Action ℕ Bytes
running request count =
    if request.command == 4
    then (ok (le_bytes 4 0 ++ (le_bytes 2 5 ++ le_bytes 2 1)), suc count)
    else (ok (le_bytes 4 0 ++ le_bytes 4 9), suc count)

set_tc_system_to-sends_example :
    (set_tc_system_to_config running 0 ≡ (control_outcome 0, 2))
    × (set_tc_system_to_run running true 0 ≡ (control_outcome 0, 2))
    × (set_tc_system_to_run running false 0 ≡ (err not_connected, 0))
set_tc_system_to-sends_example =
    set_tc_system_to-sends running (record { ads_state = 5; device_state = 1 }) 0 0 []
      (le_bytes 4 9) (le_bytes 4 9) 0 1 2 2 (omega arith) (omega arith) (omega arith) (omega arith)
      refl refl refl

abbrev on_change : SubscriptionSettings
on_change = record { cycle_time = 0; send_on_change = true; max_delay = 50000000 }

abbrev subscribed : ActiveSubscription Bool
subscribed = record { handle = 9; port = 851; receiver = true; settings = with_defaults on_change }

abbrev session : Session ℕ Bool
session = record { device = 0; subscriptions = [] }

abbrev session9 : Session ℕ Bool
session9 = record { device = 0; subscriptions = (9, subscribed) ∷ [] }

add_subscription-stores_example :
    let out = add_subscription running 851 16448 0 2 on_change true session in
    (out.0 ≡ ok subscribed)
    × (out.1.device ≡ 1)
    × (lookup 9 out.1.subscriptions ≡ some subscribed)
    × (lookup 8 out.1.subscriptions ≡ none)
add_subscription-stores_example =
    add_subscription-stores running 851 16448 0 2 on_change true session 0 9 8 [] 1 refl
      (omega arith) (omega arith) refl

unsubscribe-deletes_example :
    let out = unsubscribe running subscribed session9 in
    (out.0 ≡ ok tt)
    × (out.1.device ≡ 1)
    × (lookup 9 out.1.subscriptions ≡ none)
    × (lookup 8 out.1.subscriptions ≡ none)
unsubscribe-deletes_example =
    unsubscribe-deletes running subscribed session9 (ok (le_bytes 4 0 ++ le_bytes 4 9)) 1 8 refl
      refl

unsubscribe_all-empties_example :
    ((unsubscribe_all running session9).0 ≡ ok tt)
    × ((unsubscribe_all running session9).1.subscriptions ≡ [])
unsubscribe_all-empties_example =
    unsubscribe_all-empties running (λ port handle s. (le_bytes 4 0 ++ le_bytes 4 9, suc s, refl))
      session9 (refl, tt)

abbrev symbol : AdsSymbol
symbol = record {
  index_group = 16448;
  index_offset = 4;
  size = 2;
  data_type = 2;
  flags = 0x10000;
  name_length = 1;
  type_length = 3;
  comment_length = 0;
  name = b'x' ∷ [];
  type_name = b'I' ∷ b'N' ∷ b'T' ∷ [];
  comment = [];
  array_info = record { start_index = negsuc 0; entries = 3 } ∷ [];
  type_guid = [];
  attributes = [];
}

symbol-IsPlainSymbol : IsPlainSymbol symbol
symbol-IsPlainSymbol = record {
  group_word = omega arith;
  offset_word = omega arith;
  size_word = omega arith;
  type_word = omega arith;
  flags_word = omega arith;
  name_half = omega arith;
  type_half = omega arith;
  comment_half = omega arith;
  name_long = refl;
  type_long = refl;
  comment_long = refl;
  texts = ((omega arith, tt), (omega arith, (omega arith, (omega arith, tt))), tt);
  arrays = refl;
  entries_fit = ((omega arith, omega arith), tt);
  no_guid = refl;
  no_attributes = refl;
  guid_empty = refl;
  attributes_empty = refl;
}

parse_symbol-image_example : parse_symbol (symbol_image 45 symbol []) ≡ ok symbol
parse_symbol-image_example = parse_symbol-image 45 symbol [] (omega arith) symbol-IsPlainSymbol

abbrev entry : Bytes
entry = symbol_image 45 symbol []

abbrev with_table : Cells
with_table g =
    if g == 61451
    then table_image (entry ∷ [])
    else if g == 0xf00f
    then le_bytes 4 1 ++ (le_bytes 4 45 ++ make_bytes 16)
    else []
