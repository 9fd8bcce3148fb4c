-- ===== src/Requests.antt =====
-- pkg/ads/ads-requests/build.go: the payloads of the commands. A length is cut to its uint32.
pub mod Fields
use ads_go.Base.{ℕ, ◌+◌, [], ◌∷◌, ◌++◌, length}
use ads_go.Wire.{Bytes, le_bytes, make_bytes, put_uint16, put_uint32}

unfoldable pub build_read_request : ℕ → ℕ → ℕ → Bytes
build_read_request index_group index_offset read_length =
    le_bytes 4 index_group ++ (le_bytes 4 index_offset ++ le_bytes 4 read_length)

unfoldable pub build_write_request : ℕ → ℕ → Bytes → Bytes
build_write_request index_group index_offset payload =
    le_bytes 4 index_group ++ (le_bytes 4 index_offset ++ (le_bytes 4 (length payload) ++ payload))

unfoldable pub build_read_write_request : ℕ → ℕ → ℕ → Bytes → Bytes
build_read_write_request index_group index_offset read_length write_data =
    le_bytes 4 index_group
    ++ (le_bytes 4 index_offset
        ++ (le_bytes 4 read_length ++ (le_bytes 4 (length write_data) ++ write_data)))

unfoldable pub build_read_write_request_with_null_terminator : ℕ → ℕ → ℕ → Bytes → Bytes
build_read_write_request_with_null_terminator index_group index_offset read_length write_data =
    le_bytes 4 index_group
    ++ (le_bytes 4 index_offset
        ++ (le_bytes 4 read_length
            ++ (le_bytes 4 (length write_data + 1) ++ (write_data ++ (0 ∷ [])))))

unfoldable pub build_write_control_request : ℕ → ℕ → Bytes
build_write_control_request ads_state device_state =
    put_uint32 4 0 (put_uint16 2 device_state (put_uint16 0 ads_state (make_bytes 8)))

unfoldable pub build_read_state_request : Bytes
build_read_state_request = []

unfoldable pub build_read_device_info_request : Bytes
build_read_device_info_request = []
