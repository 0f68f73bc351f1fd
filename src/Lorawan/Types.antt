-- ===== src/Lorawan/Types.antt =====
-- lorawan/src/lib.rs: the machine types of the fields. The readers are given bytes.
use gateway_rs.Base.{ℕ, ◌^◌, ◌<◌, List, [], ◌∷◌, Option, none, some, ◌&&◌, ltb, Result, ok, err}
use gateway_rs.Lorawan.Header.{
  Direction, uplink, downlink, MType, join_request, join_accept, unconfirmed_up, unconfirmed_down,
  confirmed_up, confirmed_down, proprietary, invalid, mtype,
}
use gateway_rs.Lorawan.Wire.{Failure, fails, invalid_fport_for_fopts, LittleEndian, IsByte, IsBytes}
use gateway_rs.Lorawan.Frame.{
  FCtrl, uplink_ctrl, downlink_ctrl, Fhdr, FrmPayload, unconfirmed_up_data, unconfirmed_down_data,
  confirmed_up_data, confirmed_down_data, MacPayload, JoinRequest, JoinAccept, PhyPayloadFrame,
  mac_frame, join_request_frame, join_accept_frame, proprietary_frame, fopts_len, frame_read,
  mac_read, fhdr_read, fctrl_read, port_and_payload, is_port_zero, join_request_read,
  join_accept_read,
}
use gateway_rs.Lorawan.Phy.Sizes.{GoodSize}
use gateway_rs.Lorawan.Phy.{PhyPayload}
use gateway_rs.Lorawan.Yields.{
  Yields, pure-Yields, fail-Yields, bind-Yields, if-Yields, read_u8-Yields, IsSized,
  read_exact-Yields, read_to_end-Yields, read_uint-Yields,
}

abbrev pub IsCtrl : FCtrl → Type 0
IsCtrl (uplink_ctrl b) = IsByte b
IsCtrl (downlink_ctrl b) = IsByte b

-- The options are as many as their length in the control byte says.
abbrev pub IsFhdr : Fhdr → Type 0
IsFhdr f =
    (f.dev_addr < 256 ^ 4)
    × IsCtrl f.fctrl
    × (f.fcnt < 256 ^ 2)
    × IsSized (fopts_len f.fctrl) f.fopts

abbrev pub IsPayload : Option FrmPayload → Type 0
IsPayload none = Unit {0}
IsPayload (some (unconfirmed_up_data d)) = IsBytes d
IsPayload (some (unconfirmed_down_data d)) = IsBytes d
IsPayload (some (confirmed_up_data d)) = IsBytes d
IsPayload (some (confirmed_down_data d)) = IsBytes d

-- There is a payload where there is a port.
abbrev pub IsPorted : Option ℕ × Option FrmPayload → Type 0
IsPorted (none, none) = Unit {0}
IsPorted (none, some p) = ⊥
IsPorted (some port, none) = ⊥
IsPorted (some port, some p) = IsByte port × IsPayload (some p)

abbrev pub IsJoinRequest : JoinRequest → Type 0
IsJoinRequest j = (j.app_eui < 256 ^ 8) × (j.dev_eui < 256 ^ 8) × IsSized 2 j.dev_nonce

abbrev pub IsJoinAccept : JoinAccept → Type 0
IsJoinAccept j =
    IsSized 3 j.app_nonce
    × IsSized 3 j.net_id
    × (j.dev_addr < 256 ^ 4)
    × IsByte j.dl_settings
    × IsByte j.rx_delay

abbrev pub IsMac : MacPayload → Type 0
IsMac m = IsFhdr m.fhdr × IsPorted (m.fport, m.payload)

-- The kind of a frame is that of its header.
abbrev pub IsFrame : MType → PhyPayloadFrame → Type 0
IsFrame join_request (join_request_frame j) = IsJoinRequest j
IsFrame join_accept (join_accept_frame j) = IsJoinAccept j
IsFrame proprietary (proprietary_frame d) = IsBytes d
IsFrame unconfirmed_up (mac_frame m) = IsMac m
IsFrame unconfirmed_down (mac_frame m) = IsMac m
IsFrame confirmed_up (mac_frame m) = IsMac m
IsFrame confirmed_down (mac_frame m) = IsMac m
IsFrame t p = ⊥

-- A proprietary frame has no mic, and each other one has four bytes of it.
abbrev pub IsMic : MType → Option (List ℕ) → Type 0
IsMic proprietary none = Unit {0}
IsMic proprietary (some mic) = ⊥
IsMic t none = ⊥
IsMic t (some mic) = IsSized 4 mic

abbrev pub IsPhyPayload : PhyPayload → Type 0
IsPhyPayload p = IsByte p.mhdr × IsFrame (mtype p.mhdr) p.payload × IsMic (mtype p.mhdr) p.mic

-- What a result is, where there is one.
abbrev pub IsResult : {A : Type 0} → (A → Type 0) → Result Failure A → Type 0
IsResult P (ok a) = P a
IsResult P (err e) = Unit {0}

fctrl_read-Yields : (dir : Direction) → Yields IsCtrl (fctrl_read dir)
unfolding fctrl_read
fctrl_read-Yields uplink =
    bind-Yields IsByte IsCtrl read_u8-Yields (λ b h. pure-Yields IsCtrl (uplink_ctrl b) h)
fctrl_read-Yields downlink =
    bind-Yields IsByte IsCtrl read_u8-Yields (λ b h. pure-Yields IsCtrl (downlink_ctrl b) h)

port_and_payload-Yields :
    (t : MType) (rest : List ℕ) → IsBytes rest → Yields IsPorted (port_and_payload t rest)
unfolding port_and_payload
port_and_payload-Yields t [] h = record { yields = λ bytes g. (tt, g) }
port_and_payload-Yields unconfirmed_up (port ∷ rest) h = record {
  yields = λ bytes g. ((h.0, h.1), g);
}
port_and_payload-Yields unconfirmed_down (port ∷ rest) h = record {
  yields = λ bytes g. ((h.0, h.1), g);
}
port_and_payload-Yields confirmed_up (port ∷ rest) h = record {
  yields = λ bytes g. ((h.0, h.1), g);
}
port_and_payload-Yields confirmed_down (port ∷ rest) h = record {
  yields = λ bytes g. ((h.0, h.1), g);
}
port_and_payload-Yields join_request (port ∷ rest) h = record { yields = λ bytes g. tt }
port_and_payload-Yields join_accept (port ∷ rest) h = record { yields = λ bytes g. tt }
port_and_payload-Yields proprietary (port ∷ rest) h = record { yields = λ bytes g. tt }
port_and_payload-Yields (invalid v) (port ∷ rest) h = record { yields = λ bytes g. tt }

module _ ⦃le : LittleEndian⦄ where
  fhdr_read-Yields : (dir : Direction) → Yields IsFhdr (fhdr_read dir)
  unfolding fhdr_read
  fhdr_read-Yields dir =
      bind-Yields (λ v. v < 256 ^ 4) IsFhdr (read_uint-Yields 4)
        (λ dev_addr addr_fits. bind-Yields IsCtrl IsFhdr (fctrl_read-Yields dir) (λ fctrl ctrl_fits.
          bind-Yields (λ v. v < 256 ^ 2) IsFhdr (read_uint-Yields 2)
            (λ fcnt fcnt_fits.
              bind-Yields (IsSized (fopts_len fctrl)) IsFhdr (read_exact-Yields (fopts_len fctrl))
                (λ fopts fopts_fits.
                  pure-Yields IsFhdr
                    (record { dev_addr = dev_addr; fctrl = fctrl; fcnt = fcnt; fopts = fopts })
                    (addr_fits, ctrl_fits, fcnt_fits, fopts_fits)))))

  mac_read-Yields : (t : MType) (dir : Direction) → Yields IsMac (mac_read t dir)
  unfolding mac_read
  mac_read-Yields t dir = bind-Yields IsFhdr IsMac (fhdr_read-Yields dir) (λ fhdr fhdr_fits.
      bind-Yields IsBytes IsMac read_to_end-Yields (λ rest rest_fits.
        bind-Yields IsPorted IsMac (port_and_payload-Yields t rest rest_fits) (λ pp pp_fits.
          if-Yields IsMac (is_port_zero pp.0 && ltb 0 (fopts_len fhdr.fctrl))
            (fail-Yields IsMac (fails invalid_fport_for_fopts))
            (pure-Yields IsMac (record { fhdr = fhdr; fport = pp.0; payload = pp.1 })
              (fhdr_fits, pp_fits)))))

  join_request_read-Yields : Yields IsJoinRequest join_request_read
  unfolding join_request_read
  join_request_read-Yields =
      bind-Yields (λ v. v < 256 ^ 8) IsJoinRequest (read_uint-Yields 8)
        (λ app_eui app_fits.
          bind-Yields (λ v. v < 256 ^ 8) IsJoinRequest (read_uint-Yields 8)
            (λ dev_eui dev_fits.
              bind-Yields (IsSized 2) IsJoinRequest (read_exact-Yields 2) (λ nonce nonce_fits.
                pure-Yields IsJoinRequest
                  (record { app_eui = app_eui; dev_eui = dev_eui; dev_nonce = nonce })
                  (app_fits, dev_fits, nonce_fits))))

  join_accept_read-Yields : Yields IsJoinAccept join_accept_read
  unfolding join_accept_read
  join_accept_read-Yields =
      bind-Yields (IsSized 3) IsJoinAccept (read_exact-Yields 3) (λ app_nonce app_fits.
        bind-Yields (IsSized 3) IsJoinAccept (read_exact-Yields 3) (λ net_id net_fits.
          bind-Yields (λ v. v < 256 ^ 4) IsJoinAccept (read_uint-Yields 4)
            (λ dev_addr addr_fits.
              bind-Yields IsByte IsJoinAccept read_u8-Yields (λ dl_settings dl_fits.
                bind-Yields IsByte IsJoinAccept read_u8-Yields (λ rx_delay rx_fits.
                  pure-Yields IsJoinAccept
                    (record {
                      app_nonce = app_nonce;
                      net_id = net_id;
                      dev_addr = dev_addr;
                      dl_settings = dl_settings;
                      rx_delay = rx_delay;
                    })
                    (app_fits, net_fits, addr_fits, dl_fits, rx_fits))))))

  -- A frame of a type that is not refused.
  pub frame_read-Yields :
      (dir : Direction) (t : MType) (n : ℕ) → GoodSize t n → Yields (IsFrame t) (frame_read dir t)
  unfolding frame_read
  frame_read-Yields dir join_request n good =
      bind-Yields IsJoinRequest (IsFrame join_request) join_request_read-Yields
        (λ j h. pure-Yields (IsFrame join_request) (join_request_frame j) h)
  frame_read-Yields dir join_accept n good =
      bind-Yields IsJoinAccept (IsFrame join_accept) join_accept_read-Yields
        (λ j h. pure-Yields (IsFrame join_accept) (join_accept_frame j) h)
  frame_read-Yields dir proprietary n good =
      bind-Yields IsBytes (IsFrame proprietary) read_to_end-Yields
        (λ d h. pure-Yields (IsFrame proprietary) (proprietary_frame d) h)
  frame_read-Yields dir (invalid v) n good = absurd good
  frame_read-Yields dir unconfirmed_up n good =
      bind-Yields IsMac (IsFrame unconfirmed_up) (mac_read-Yields unconfirmed_up dir)
        (λ m h. pure-Yields (IsFrame unconfirmed_up) (mac_frame m) h)
  frame_read-Yields dir unconfirmed_down n good =
      bind-Yields IsMac (IsFrame unconfirmed_down) (mac_read-Yields unconfirmed_down dir)
        (λ m h. pure-Yields (IsFrame unconfirmed_down) (mac_frame m) h)
  frame_read-Yields dir confirmed_up n good =
      bind-Yields IsMac (IsFrame confirmed_up) (mac_read-Yields confirmed_up dir)
        (λ m h. pure-Yields (IsFrame confirmed_up) (mac_frame m) h)
  frame_read-Yields dir confirmed_down n good =
      bind-Yields IsMac (IsFrame confirmed_down) (mac_read-Yields confirmed_down dir)
        (λ m h. pure-Yields (IsFrame confirmed_down) (mac_frame m) h)
