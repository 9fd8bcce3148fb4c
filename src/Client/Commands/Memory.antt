-- ===== src/Client/Commands/Memory.antt =====
-- Reads and writes against a device that answers as the protocol says.
use ads_go.Base.{ℕ, ◌^◌, ◌<◌, ◌≡◌, refl, ap, sym, ◌∙◌, [], ◌++◌, length, ok, ◌>>=◌, arith, eqb_self}
use ads_go.Wire.{Bytes, le_bytes}
use ads_go.AdsHeader.{strip_ads_error, strip_ads_header, check_ads_error}
use ads_go.AdsHeader.Accepts.{success_image, strip_ads_header_answers}
use ads_go.Requests.{build_read_request, build_write_request}
use ads_go.Client.Commands.{AdsCommandRequest, Action, go_on, and_then, pure, read_raw, write_raw}

abbrev pub read_request : ℕ → ℕ → ℕ → ℕ → AdsCommandRequest
read_request port group offset size = record {
  command = 2;
  target_port = port;
  data_bytes = le_bytes 4 group ++ (le_bytes 4 offset ++ le_bytes 4 size);
}

abbrev pub write_request : ℕ → ℕ → ℕ → Bytes → AdsCommandRequest
write_request port group offset payload = record {
  command = 3;
  target_port = port;
  data_bytes = le_bytes 4 group ++ (le_bytes 4 offset ++ (le_bytes 4 (length payload) ++ payload));
}

-- A device with memory cells by port, group and offset: a read of a cell's whole length answers the
-- code 0, the length and the cell, and changes nothing; a write answers the code 0, after which the
-- cell holds the bytes.
pub record Memory {S : Type 0} (send : AdsCommandRequest → Action S Bytes) : Type 0 where
  pub cell : ℕ → ℕ → ℕ → S → Bytes
  pub answers_read :
      (port group offset : ℕ) (s : S)
      → send (read_request port group offset (length (cell port group offset s))) s
        ≡ (ok (success_image (cell port group offset s)), s)
  pub answers_write :
      (port group offset : ℕ) (payload : Bytes) (s : S)
      → (s' : S) × (send (write_request port group offset payload) s ≡ (ok (le_bytes 4 0), s'))
        × (cell port group offset s' ≡ payload)

pub strip_ads_header_success :
    (payload : Bytes)
    → length payload < 2 ^ 32
    → strip_ads_header (success_image payload) ≡ ok payload
strip_ads_header_success payload small =
    (strip_ads_header_answers 0 (length payload) payload (omega arith) small).0
    ∙ rw (eqb_self (length payload))

strip_ads_error_success : strip_ads_error (le_bytes 4 0) ≡ ok []
unfolding strip_ads_error check_ads_error
strip_ads_error_success = refl

module _ {S : Type 0} (send : AdsCommandRequest → Action S Bytes) (device : Memory send) where
  pub read_raw-cell :
      (port group offset size : ℕ) (payload : Bytes) (s : S)
      → device.cell port group offset s ≡ payload
      → length payload ≡ size
      → size < 2 ^ 32
      → read_raw send port group offset size s ≡ (ok payload, s)
  unfolding read_raw build_read_request
  read_raw-cell port group offset size payload s e n small =
      ap (λ k. go_on (λ r. pure (strip_ads_header r)) (send (read_request port group offset k) s))
        (sym n ∙ ap length (sym e))
      ∙ ap (go_on (λ r. pure (strip_ads_header r))) (device.answers_read port group offset s)
      ∙ ap (λ p. (strip_ads_header (success_image p), s)) e
      ∙ ap (λ r. (r, s)) (strip_ads_header_success payload (omega (arith, n)))

  pub write_raw-answered :
      (port group offset : ℕ) (payload : Bytes) (s s' : S)
      → send (write_request port group offset payload) s ≡ (ok (le_bytes 4 0), s')
      → write_raw send port group offset payload s ≡ (ok tt, s')
  unfolding write_raw build_write_request
  write_raw-answered port group offset payload s s' e =
      ap (go_on (λ r. pure (strip_ads_error r >>= λ _. ok tt))) e
      ∙ ap (λ r. (r >>= λ _. ok tt, s')) strip_ads_error_success

  -- On a device with memory cells: what `write_raw` wrote, if its length fits 32 bits, `read_raw`
  -- of the same port, address and length returns, from whatever state the device was in.
  pub read_raw-write_raw :
      (port group offset : ℕ) (payload : Bytes) (s : S)
      → length payload < 2 ^ 32
      → (and_then
          (write_raw send port group offset payload)
          (λ _. read_raw send port group offset (length payload))
          s).0
        ≡ ok payload
  read_raw-write_raw port group offset payload s small =
      let (s', wrote, holds) = device.answers_write port group offset payload s in
      ap (λ r. (go_on (λ _. read_raw send port group offset (length payload)) r).0)
        (write_raw-answered port group offset payload s s' wrote)
      ∙ ap (λ r. r.0) (read_raw-cell port group offset (length payload) payload s' holds refl small)
