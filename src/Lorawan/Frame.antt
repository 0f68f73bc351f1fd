-- ===== src/Lorawan/Frame.antt =====
-- lorawan/src/lib.rs, the frames behind the header: their fields, `read` and `write`.
use gateway_rs.Base.{
  ℕ, List, [], ◌∷◌, Option, none, some, Bool, false, ◌&&◌, ok, err, ltb, ◌==◌, if◌then◌else◌,
}
use gateway_rs.Lorawan.Header.{
  Direction, uplink, downlink, MType, join_request, join_accept, unconfirmed_up, unconfirmed_down,
  confirmed_up, confirmed_down, proprietary, invalid, bits,
}
use gateway_rs.Lorawan.Wire.{
  fails, panics, invalid_packet_type, invalid_fport_for_fopts, LittleEndian, Reader, ◌>>=◌, pure,
  fail, read_u8, read_exact, read_to_end, read_uint, Written, put, ◌&◌, nothing,
}

-- `FCtrl`: the byte, as read in each direction.
pub data FCtrl : Type 0 where
  uplink_ctrl : ℕ → FCtrl
  downlink_ctrl : ℕ → FCtrl

unfoldable pub fopts_len : FCtrl → ℕ
fopts_len (uplink_ctrl b) = bits 3 0 b
fopts_len (downlink_ctrl b) = bits 3 0 b

unfoldable pub fctrl_read : Direction → Reader FCtrl
fctrl_read uplink = do b ← read_u8; pure (uplink_ctrl b)
fctrl_read downlink = do b ← read_u8; pure (downlink_ctrl b)

unfoldable pub fctrl_write : FCtrl → Written
fctrl_write (uplink_ctrl b) = put (b ∷ [])
fctrl_write (downlink_ctrl b) = put (b ∷ [])

pub record Fhdr : Type 0 where
  pub dev_addr : ℕ
  pub fctrl : FCtrl
  pub fcnt : ℕ
  pub fopts : List ℕ

-- `Payload` is its bytes.
pub data FrmPayload : Type 0 where
  unconfirmed_up_data unconfirmed_down_data confirmed_up_data confirmed_down_data :
      List ℕ → FrmPayload

pub record MacPayload : Type 0 where
  pub fhdr : Fhdr
  pub fport : Option ℕ
  pub payload : Option FrmPayload

pub record JoinRequest : Type 0 where
  pub app_eui : ℕ
  pub dev_eui : ℕ
  pub dev_nonce : List ℕ

pub record JoinAccept : Type 0 where
  pub app_nonce : List ℕ
  pub net_id : List ℕ
  pub dev_addr : ℕ
  pub dl_settings : ℕ
  pub rx_delay : ℕ

pub data PhyPayloadFrame : Type 0 where
  mac_frame : MacPayload → PhyPayloadFrame
  join_request_frame : JoinRequest → PhyPayloadFrame
  join_accept_frame : JoinAccept → PhyPayloadFrame
  proprietary_frame : List ℕ → PhyPayloadFrame

unfoldable pub frm_read : MType → Reader FrmPayload
frm_read unconfirmed_up = do d ← read_to_end; pure (unconfirmed_up_data d)
frm_read unconfirmed_down = do d ← read_to_end; pure (unconfirmed_down_data d)
frm_read confirmed_up = do d ← read_to_end; pure (confirmed_up_data d)
frm_read confirmed_down = do d ← read_to_end; pure (confirmed_down_data d)
frm_read (invalid v) = fail (fails (invalid_packet_type v))
frm_read _ = fail panics

unfoldable pub frm_write : FrmPayload → Written
frm_write (unconfirmed_up_data d) = put d
frm_write (unconfirmed_down_data d) = put d
frm_write (confirmed_up_data d) = put d
frm_write (confirmed_down_data d) = put d

-- `split_first` of what follows the header: the port, and the rest as the payload.
unfoldable pub port_and_payload : MType → List ℕ → Reader (Option ℕ × Option FrmPayload)
unfolding frm_read
port_and_payload t [] bytes = ok ((none, none), bytes)
port_and_payload t (port ∷ rest) bytes = elim (frm_read t rest) [
  | ok (p, _) ↦ ok ((some port, some p), bytes)
  | err e ↦ err e
]

unfoldable pub is_port_zero : Option ℕ → Bool
is_port_zero none = false
is_port_zero (some port) = port == 0

unfoldable pub port_write : Option ℕ → Written
port_write none = nothing
port_write (some port) = put (port ∷ [])

unfoldable pub payload_write : Option FrmPayload → Written
unfolding frm_write
payload_write none = nothing
payload_write (some p) = frm_write p

module _ ⦃le : LittleEndian⦄ where
  unfoldable pub fhdr_read : Direction → Reader Fhdr
  unfolding fctrl_read fopts_len
  fhdr_read dir = do
    dev_addr ← read_uint 4
    fctrl ← fctrl_read dir
    fcnt ← read_uint 2
    fopts ← read_exact (fopts_len fctrl)
    pure (record { dev_addr = dev_addr; fctrl = fctrl; fcnt = fcnt; fopts = fopts })

  -- The address is put out twice and counted once.
  unfoldable pub fhdr_write : Fhdr → Written
  unfolding fctrl_write
  fhdr_write f =
      put (le.put 4 f.dev_addr)
      & record { bytes = le.put 4 f.dev_addr; count = 0 }
      & fctrl_write f.fctrl
      & put (le.put 2 f.fcnt)
      & put f.fopts

  unfoldable pub mac_read : MType → Direction → Reader MacPayload
  unfolding fhdr_read port_and_payload is_port_zero
  mac_read t dir = do
    fhdr ← fhdr_read dir
    rest ← read_to_end
    pp ← port_and_payload t rest
    if is_port_zero pp.0 && ltb 0 (fopts_len fhdr.fctrl)
        then fail (fails invalid_fport_for_fopts)
        else pure (record { fhdr = fhdr; fport = pp.0; payload = pp.1 })

  unfoldable pub mac_write : MacPayload → Written
  unfolding fhdr_write port_write payload_write
  mac_write m = fhdr_write m.fhdr & port_write m.fport & payload_write m.payload

  unfoldable pub join_request_read : Reader JoinRequest
  join_request_read = do
    app_eui ← read_uint 8
    dev_eui ← read_uint 8
    dev_nonce ← read_exact 2
    pure (record { app_eui = app_eui; dev_eui = dev_eui; dev_nonce = dev_nonce })

  unfoldable pub join_request_write : JoinRequest → Written
  join_request_write j = put (le.put 8 j.app_eui) & put (le.put 8 j.dev_eui) & put j.dev_nonce

  unfoldable pub join_accept_read : Reader JoinAccept
  join_accept_read = do
    app_nonce ← read_exact 3
    net_id ← read_exact 3
    dev_addr ← read_uint 4
    dl_settings ← read_u8
    rx_delay ← read_u8
    pure (record {
      app_nonce = app_nonce;
      net_id = net_id;
      dev_addr = dev_addr;
      dl_settings = dl_settings;
      rx_delay = rx_delay;
    })

  unfoldable pub join_accept_write : JoinAccept → Written
  join_accept_write j =
      put j.app_nonce
      & put j.net_id
      & put (le.put 4 j.dev_addr)
      & put (j.dl_settings ∷ [])
      & put (j.rx_delay ∷ [])

  unfoldable pub frame_read : Direction → MType → Reader PhyPayloadFrame
  unfolding join_request_read join_accept_read mac_read
  frame_read dir join_request = do j ← join_request_read; pure (join_request_frame j)
  frame_read dir join_accept = do j ← join_accept_read; pure (join_accept_frame j)
  frame_read dir proprietary = do d ← read_to_end; pure (proprietary_frame d)
  frame_read dir t = do m ← mac_read t dir; pure (mac_frame m)

  unfoldable pub frame_write : PhyPayloadFrame → Written
  unfolding mac_write join_request_write join_accept_write
  frame_write (mac_frame m) = mac_write m
  frame_write (join_request_frame j) = join_request_write j
  frame_write (join_accept_frame j) = join_accept_write j
  frame_write (proprietary_frame d) = put d
