-- ===== src/AdsHeader.antt =====
-- pkg/ads/ads-errors/parse.go and pkg/ads/ads-header/parse.go: what precedes the data of a response.
-- The text of an error code stays a number here.
pub mod Accepts
use ads_go.Base.{
  ℕ, ◌+◌, Bool, not, Result, ok, err, panic, Error, ads_error, ads_invalid_length,
  invalid_header_length, invalid_data_length, ◌>>=◌, ◌>>◌, fail_if, ltb, ◌==◌, length, slice,
  slice_to, slice_from,
}
use ads_go.Wire.{Bytes, le_value, uint_at}

unfoldable pub check_ads_error : Bytes → Result (Unit {0})
check_ads_error bytes = do
  fail_if (not (length bytes == 4)) (ads_invalid_length (length bytes))
  let error_code = le_value bytes
  fail_if (not (error_code == 0)) (ads_error error_code)

unfoldable pub strip_ads_error : Bytes → Result Bytes
strip_ads_error bytes = do
  fail_if (ltb (length bytes) 4) (ads_invalid_length (length bytes))
  front ← slice_to 4 bytes
  check_ads_error front
  slice_from 4 bytes

unfoldable pub strip_and_check_length : Bytes → Result Bytes
strip_and_check_length bytes = do
  fail_if (ltb (length bytes) 4) (invalid_data_length 4 (length bytes))
  front ← slice_to 4 bytes
  let data_len = le_value front
  rest ← slice_from 4 bytes
  fail_if (not (length rest == data_len)) (invalid_data_length data_len (length rest))
  ok rest

unfoldable pub check_ads_header : Bytes → Result (Unit {0})
check_ads_header bytes = do
  fail_if (ltb (length bytes) 8) (invalid_header_length (length bytes))
  stripped ← strip_ads_error bytes
  rest ← strip_and_check_length stripped
  ok tt

unfoldable pub strip_ads_header : Bytes → Result Bytes
strip_ads_header bytes = do
  fail_if (ltb (length bytes) 8) (invalid_header_length (length bytes))
  stripped ← strip_ads_error bytes
  strip_and_check_length stripped
