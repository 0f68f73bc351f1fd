-- ===== src/Errors.antt =====
-- src/error.rs: the errors of the program, with their texts and conversions. The errors of the crates that
-- it uses are types of their own, printed by parameters.
pub mod Sync
use gateway_rs.Base.{ℕ, List, [], ◌∷◌, ◌++◌, Option, none, some, Text, text}

-- The error types of the crates.
pub record Crates : Type 1 where
  pub ConfigError : Type 0
  pub IoError : Type 0
  pub CryptoError : Type 0
  pub ProstEncodeError : Type 0
  pub InvalidUri : Type 0
  pub JsonError : Type 0
  pub Base64Error : Type 0
  pub AddrParseError : Type 0
  pub ProstDecodeError : Type 0
  pub FrameError : Type 0
  pub LfcError : Type 0
  pub DataRateError : Type 0
  pub ServicesError : Type 0
  pub RpcStatus : Type 0
  pub SemtechError : Type 0
  pub BeaconError : Type 0

pub data EncodeError (c : Crates) : Type 0 where
  prost_encode : c.ProstEncodeError → EncodeError c

pub data DecodeError (c : Crates) : Type 0 where
  uri : c.InvalidUri → DecodeError c
  keypair_uri : Text → DecodeError c
  json : c.JsonError → DecodeError c
  base64 : c.Base64Error → DecodeError c
  addr : c.AddrParseError → DecodeError c
  prost : c.ProstDecodeError → DecodeError c
  lora_wan : c.FrameError → DecodeError c
  lfc_error : c.LfcError → DecodeError c
  data_rate : c.DataRateError → DecodeError c
  invalid_crc : DecodeError c
  invalid_envelope : DecodeError c

pub data ServiceError (c : Crates) : Type 0 where
  service : c.ServicesError → ServiceError c
  rpc : c.RpcStatus → ServiceError c
  stream : ServiceError c
  channel : ServiceError c
  no_service : ServiceError c
  check : ℕ → ℕ → ServiceError c
  local_client_connect : c.ServicesError → ServiceError c

pub data RegionParamsError : Type 0 where
  no_region_params : RegionParamsError

pub data Error (c : Crates) : Type 0 where
  config : c.ConfigError → Error c
  custom : Text → Error c
  io : c.IoError → Error c
  crypto : c.CryptoError → Error c
  encode : EncodeError c → Error c
  decode : DecodeError c → Error c
  service_error : ServiceError c → Error c
  semtech : c.SemtechError → Error c
  beacon : c.BeaconError → Error c
  region : RegionParamsError → Error c

-- `{0:?}` of the errors that are printed so, and numbers in decimal.
pub record Printing (c : Crates) : Type 0 where
  pub services_text : c.ServicesError → Text
  pub rpc_text : c.RpcStatus → Text
  pub number_text : ℕ → Text

-- The texts that `thiserror` derives.
unfoldable pub service_error_text : {c : Crates} → Printing c → ServiceError c → Text
service_error_text print (service e) = text "service " ++ print.services_text e
service_error_text print (rpc e) = text "rpc " ++ print.rpc_text e
service_error_text print stream = text "stream closed"
service_error_text print channel = text "channel closed"
service_error_text print no_service = text "no service"
service_error_text print (check block_age max_age) =
    text "block age "
    ++ print.number_text block_age
    ++ text "s > "
    ++ print.number_text max_age
    ++ text "s"
service_error_text print (local_client_connect e) =
    text "Unable to connect to local server. Check that `helium_gateway` is running."

unfoldable pub decode_error_text : {c : Crates} → DecodeError c → Text
decode_error_text (uri e) = text "uri decode"
decode_error_text (keypair_uri msg) = text "keypair uri: " ++ msg
decode_error_text (json e) = text "json decode"
decode_error_text (base64 e) = text "base64 decode"
decode_error_text (addr e) = text "network address decode"
decode_error_text (prost e) = text "protobuf decode"
decode_error_text (lora_wan e) = text "lorawan decode"
decode_error_text (lfc_error e) = text "longfi error"
decode_error_text (data_rate e) = text "semtech decode"
decode_error_text invalid_crc = text "packet crc"
decode_error_text invalid_envelope = text "unexpected transaction in envelope"

unfoldable pub encode_error_text : {c : Crates} → EncodeError c → Text
encode_error_text (prost_encode e) = text "protobuf encode"

unfoldable pub region_error_text : RegionParamsError → Text
region_error_text no_region_params = text "no region params found or active"

-- What `{e}` prints of an error: the service errors in full, and of the others their kind only.
unfoldable pub program_error_text : {c : Crates} → Printing c → Error c → Text
program_error_text print (config e) = text "config error"
program_error_text print (custom msg) = text "custom error"
program_error_text print (io e) = text "io error"
program_error_text print (crypto e) = text "crypto error"
program_error_text print (encode e) = text "encode error"
program_error_text print (decode e) = text "decode error"
program_error_text print (service_error e) = text "service error: " ++ service_error_text print e
program_error_text print (semtech e) = text "semtech udp error"
program_error_text print (beacon e) = text "beacon error"
program_error_text print (region e) = text "region error"

-- `source` of the errors, which `#[from]` derives, one level down.
pub data Source (c : Crates) : Type 0 where
  of_encode : EncodeError c → Source c
  of_decode : DecodeError c → Source c
  of_service : ServiceError c → Source c
  of_region_error : RegionParamsError → Source c
  of_crate : Source c

unfoldable pub source : {c : Crates} → Error c → Option (Source c)
source (config e) = some of_crate
source (custom msg) = none
source (io e) = some of_crate
source (crypto e) = some of_crate
source (encode e) = some (of_encode e)
source (decode e) = some (of_decode e)
source (service_error e) = some (of_service e)
source (semtech e) = some of_crate
source (beacon e) = some of_crate
source (region e) = some (of_region_error e)

module _ {c : Crates} where
  -- The macro `from_err`: first into the error of a group, then into `Error`.
  unfoldable pub from_services : c.ServicesError → Error c
  from_services e = service_error (service e)

  unfoldable pub from_status : c.RpcStatus → Error c
  from_status e = service_error (rpc e)

  unfoldable pub from_prost_encode : c.ProstEncodeError → Error c
  from_prost_encode e = encode (prost_encode e)

  unfoldable pub from_invalid_uri : c.InvalidUri → Error c
  from_invalid_uri e = decode (uri e)

  unfoldable pub from_base64 : c.Base64Error → Error c
  from_base64 e = decode (base64 e)

  unfoldable pub from_json : c.JsonError → Error c
  from_json e = decode (json e)

  unfoldable pub from_addr : c.AddrParseError → Error c
  from_addr e = decode (addr e)

  unfoldable pub from_prost_decode : c.ProstDecodeError → Error c
  from_prost_decode e = decode (prost e)

  unfoldable pub from_lora_wan : c.FrameError → Error c
  from_lora_wan e = decode (lora_wan e)

  unfoldable pub from_lfc : c.LfcError → Error c
  from_lfc e = decode (lfc_error e)

  unfoldable pub from_data_rate : c.DataRateError → Error c
  from_data_rate e = decode (data_rate e)

  -- `From<SendError<T>>`, which forgets the message.
  unfoldable pub from_send_error : {T : Type 0} → T → Error c
  from_send_error message = service_error stream

  -- The constructors that the rest of the program calls; the message is printed by `to_string`.
  unfoldable pub decode_invalid_envelope : Error c
  decode_invalid_envelope = decode invalid_envelope

  unfoldable pub decode_invalid_crc : Error c
  decode_invalid_crc = decode invalid_crc

  unfoldable pub decode_prost : (Text → c.ProstDecodeError) → Text → Error c
  decode_prost new msg = decode (prost (new msg))

  unfoldable pub decode_keypair_uri : {T : Type 0} → (T → Text) → T → Error c
  decode_keypair_uri to_string msg = decode (keypair_uri (to_string msg))

  unfoldable pub region_no_region_params : Error c
  region_no_region_params = region no_region_params

  unfoldable pub error_custom : {T : Type 0} → (T → Text) → T → Error c
  error_custom to_string msg = custom (to_string msg)

  unfoldable pub error_channel : Error c
  error_channel = service_error channel

  unfoldable pub error_no_service : Error c
  error_no_service = service_error no_service

  unfoldable pub error_local_client_connect : c.ServicesError → Error c
  error_local_client_connect e = service_error (local_client_connect e)

  unfoldable pub gateway_service_check : ℕ → ℕ → Error c
  gateway_service_check block_age max_age = service_error (check block_age max_age)
