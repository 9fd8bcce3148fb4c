-- ===== src/AmsBuilder/Layout.antt =====
-- The layout of the two headers: the puts in place come to the fields one behind the other.
use ads_go.Base.{ℕ, ◌≡◌, refl, [], ◌∷◌, ◌++◌, ok, length, arith, ap}
use ads_go.Wire.{Bytes, le_bytes}
use ads_go.NetId.{ams_net_id_str_to_byte_array}
use ads_go.NetId.RoundTrip.{net_id_shape}
use ads_go.AmsBuilder.{AmsAddress, build_ams_tcp_header, build_ams_header, fill_ams_header}

pub build_ams_tcp_header-layout :
    (command data_length : ℕ)
    → build_ams_tcp_header command data_length ≡ le_bytes 2 command ++ le_bytes 4 data_length
unfolding build_ams_tcp_header
build_ams_tcp_header-layout command data_length = refl

-- The fields of an AMS header, in order.
abbrev pub ams_header_image : Bytes → ℕ → Bytes → ℕ → ℕ → ℕ → ℕ → ℕ → ℕ → Bytes
ams_header_image tn tp sn sp command flags data_length error invoke_id =
    tn
    ++ (le_bytes 2 tp
        ++ (sn
            ++ (le_bytes 2 sp
                ++ (le_bytes 2 command
                    ++ (le_bytes 2 flags
                        ++ (le_bytes 4 data_length
                            ++ (le_bytes 4 error ++ le_bytes 4 invoke_id)))))))

pub data IsSix : Bytes → Type 0 where
  six : (a b c d e f : ℕ) → IsSix (a ∷ b ∷ c ∷ d ∷ e ∷ f ∷ [])

pub IsSix-of_length : (b : Bytes) → length b ≡ 6 → IsSix b
IsSix-of_length (a ∷ b ∷ c ∷ d ∷ e ∷ f ∷ []) h = six a b c d e f
IsSix-of_length (a ∷ b ∷ c ∷ d ∷ e ∷ f ∷ g ∷ r) h = absurd (omega arith)
IsSix-of_length (a ∷ b ∷ c ∷ d ∷ e ∷ []) h = absurd (omega arith)
IsSix-of_length (a ∷ b ∷ c ∷ d ∷ []) h = absurd (omega arith)
IsSix-of_length (a ∷ b ∷ c ∷ []) h = absurd (omega arith)
IsSix-of_length (a ∷ b ∷ []) h = absurd (omega arith)
IsSix-of_length (a ∷ []) h = absurd (omega arith)
IsSix-of_length [] h = absurd (omega arith)

fill_ams_header-image :
    {tn sn : Bytes} (tp sp command data_length invoke_id : ℕ)
    → IsSix tn
    → IsSix sn
    → fill_ams_header tn tp sn sp command data_length invoke_id
      ≡ ams_header_image tn tp sn sp command 4 data_length 0 invoke_id
unfolding fill_ams_header
fill_ams_header-image tp sp command data_length invoke_id (six a b c d e f) (six g h i j k l) = refl

-- The header that is built from two NetIds that are accepted holds, in order, the target, the
-- source, the command, the flag of a request, the payload's length, no error and the invoke id.
pub build_ams_header-layout :
    (target source : AmsAddress) (command data_length invoke_id : ℕ) (tn sn : Bytes)
    → ams_net_id_str_to_byte_array target.net_id ≡ ok tn
    → ams_net_id_str_to_byte_array source.net_id ≡ ok sn
    → build_ams_header target source command data_length invoke_id
      ≡ ok (ams_header_image tn target.port sn source.port command 4 data_length 0 invoke_id)
unfolding build_ams_header
build_ams_header-layout target source command data_length invoke_id tn sn ht hs =
    rw (ht, hs)
      (ap ok (
        fill_ams_header-image target.port source.port command data_length invoke_id
          (IsSix-of_length tn (net_id_shape _ tn ht).1)
          (IsSix-of_length sn (net_id_shape _ sn hs).1)))
