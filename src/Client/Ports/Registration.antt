-- ===== src/Client/Ports/Registration.antt =====
-- client_connect.go: the router's answer to a registration, whole, in pieces, or too short.
use ads_go.Base.{
  ℕ, ◌^◌, ◌≤◌, ◌<◌, ◌≡◌, refl, [], ◌∷◌, ◌++◌, ok, panic, All, length, length-replicate, take, arith,
  ap, slice,
}
use ads_go.Wire.{Bytes, IsByte, le_bytes, make_bytes, copy_at, uint_at}
use ads_go.Wire.Numbers.{le_value-le_bytes}
use ads_go.Wire.Buffers.{length-copy_at}
use ads_go.NetId.{ams_net_id_str_to_byte_array, byte_array_to_ams_net_id_str}
use ads_go.NetId.RoundTrip.{net_id_round_trip}
use ads_go.AmsBuilder.{AmsAddress, build_ams_tcp_header}
use ads_go.AmsBuilder.Layout.{IsSix, IsSix-of_length, six}
use ads_go.Client.Ports.{Socket, register_ads_port, assigned_address}

-- The packet that asks for a port, of the router's choice.
abbrev pub registration_packet : Bytes
registration_packet = le_bytes 2 4096 ++ (le_bytes 4 2 ++ le_bytes 2 0)

assigned_address-image :
    {net_id : Bytes} (port : ℕ)
    → IsSix net_id
    → port < 2 ^ 16
    → assigned_address (copy_at 0 (take 8 (net_id ++ le_bytes 2 port)) (make_bytes 8))
      ≡ ok (record { net_id = byte_array_to_ams_net_id_str net_id; port = port })
unfolding slice
assigned_address-image port (six a b c d e f) h =
    ap
      (λ p.
        ok
          (record { net_id = byte_array_to_ams_net_id_str (a ∷ b ∷ c ∷ d ∷ e ∷ f ∷ []); port = p }))
      (le_value-le_bytes 2 port h)

module _ {S : Type 0} (socket : Socket S) where
  -- Where the packet is written and the router answers, in two reads, with a header of any command
  -- that announces eight bytes, and with six bytes and a port below 2 ^ 16, the registration gives an
  -- address with that port, whose NetId is text that is read back as the six bytes.
  pub register_ads_port-assigned :
      (net_id : Bytes) (port command : ℕ) (s s1 s2 s3 : S)
      → All IsByte net_id
      → length net_id ≡ 6
      → port < 2 ^ 16
      → socket.write registration_packet s ≡ (ok tt, s1)
      → socket.read 6 s1 ≡ (ok (le_bytes 2 command ++ le_bytes 4 8), s2)
      → socket.read 8 s2 ≡ (ok (net_id ++ le_bytes 2 port), s3)
      → (local : AmsAddress) × (register_ads_port socket s ≡ (ok local, s3))
        × (ams_net_id_str_to_byte_array local.net_id ≡ ok net_id)
        × (local.port ≡ port)
  unfolding register_ads_port build_ams_tcp_header slice
  register_ads_port-assigned net_id port command s s1 s2 s3 b n p w r1 r2 = (
    record { net_id = byte_array_to_ams_net_id_str net_id; port = port },
    rw (w, r1, r2) (ap (λ a. (a, s3)) (assigned_address-image port (IsSix-of_length net_id n) p)),
    net_id_round_trip net_id b n,
    refl,
  )

-- What the first read may bring that is no header, or a header that announces too little.
pub data IsUnfit : Bytes → Type 0 where
  piece : (got : Bytes) → length got ≤ 2 → IsUnfit got
  announces : (command n : ℕ) → n < 8 → IsUnfit (le_bytes 2 command ++ le_bytes 4 n)

assigned_address-short : (b : Bytes) → length b < 8 → assigned_address b ≡ panic
unfolding slice
assigned_address-short [] h = refl
assigned_address-short (a ∷ []) h = refl
assigned_address-short (a ∷ b ∷ []) h = refl
assigned_address-short (a ∷ b ∷ c ∷ []) h = refl
assigned_address-short (a ∷ b ∷ c ∷ d ∷ []) h = refl
assigned_address-short (a ∷ b ∷ c ∷ d ∷ e ∷ []) h = refl
assigned_address-short (a ∷ b ∷ c ∷ d ∷ e ∷ f ∷ []) h = refl
assigned_address-short (a ∷ b ∷ c ∷ d ∷ e ∷ f ∷ g ∷ []) h = refl
assigned_address-short (a ∷ b ∷ c ∷ d ∷ e ∷ f ∷ g ∷ i ∷ r) h = absurd (omega arith)

announced :
    (got : Bytes)
    → IsUnfit got
    → (n : ℕ) × (n < 8) × (uint_at 2 6 (copy_at 0 (take 6 got) (make_bytes 6)) ≡ ok n)
unfolding slice
announced [] (piece _ h) = (0, omega arith, refl)
announced (a ∷ []) (piece _ h) = (0, omega arith, refl)
announced (a ∷ b ∷ []) (piece _ h) = (0, omega arith, refl)
announced (a ∷ b ∷ c ∷ r) (piece _ h) = absurd (omega arith)
announced _ (announces command n h) = (n, h, ap ok (le_value-le_bytes 4 n (omega arith)))

module _ {S : Type 0} (socket : Socket S) where
  -- Where the packet is written, and the first read brings no more than two bytes of the header, or
  -- a header that announces fewer than eight bytes, the registration panics, whatever bytes the
  -- second read brings.
  pub register_ads_port_unfit :
      (got : Bytes) (more : ℕ → Bytes) (s s1 s2 s3 : S)
      → IsUnfit got
      → socket.write registration_packet s ≡ (ok tt, s1)
      → socket.read 6 s1 ≡ (ok got, s2)
      → ((n : ℕ) → n < 8 → socket.read n s2 ≡ (ok (more n), s3))
      → register_ads_port socket s ≡ (panic, s3)
  unfolding register_ads_port build_ams_tcp_header
  register_ads_port_unfit got more s s1 s2 s3 u w r1 r2 =
      let (n, small, e) = announced got u in
      rw (w, r1, e, r2 n small)
        (ap (λ a. (a, s3))
          (assigned_address-short (copy_at 0 (take n (more n)) (make_bytes n)) (
            rw (length-copy_at 0 (take n (more n)) (make_bytes n))
              (omega (arith, length-replicate {A = ℕ} n 0, small)))))
