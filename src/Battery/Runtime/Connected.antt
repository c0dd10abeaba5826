-- ===== src/Battery/Runtime/Connected.antt =====
-- A battery driver that was configured has a transport.
use device_manager.Common.{
  String, Bool, true, false, Option, none, some, ◌≡◌, refl, sym, subst, if-true, inl, inr,
  Bool-cases, if◌then◌else◌,
}
use device_manager.Battery.Driver.{BatteryDriverConfig, Transport, TwsBatteryDriver}
use device_manager.Battery.Driver as Driver

abbrev pub HasTransport : {F W : Type 0} → Option String × TwsBatteryDriver F × W → Type 0
HasTransport (none, d, w) = d.has_transport ≡ true
HasTransport (some m, d, w) = Unit

module _ {F W : Type 0} (transport : Transport W) where
  connected_with-HasTransport :
      (o : Option String) (w : W) (d : TwsBatteryDriver F)
      → d.has_transport ≡ true
      → HasTransport (Driver.connected_with transport (o, w) d)
  connected_with-HasTransport none w d h = h
  connected_with-HasTransport (some e) w d h = tt

  connect_transport-HasTransport :
      (d : TwsBatteryDriver F) (w : W)
      → d.has_transport ≡ true
      → HasTransport (Driver.connect_transport transport d w)
  connect_transport-HasTransport d w h = elim (Bool-cases (transport.is_connected w)) [
    | inl on ↦ rw on h
    | inr off ↦ rw off (connected_with-HasTransport _ _ d h)
  ]

  ensure_connected-HasTransport :
      (d : TwsBatteryDriver F) (w : W)
      → d.has_transport ≡ true
      → HasTransport (Driver.ensure_connected transport d w)
  unfolding Driver.ensure_connected
  ensure_connected-HasTransport d w h =
      subst HasTransport (sym (if-true d.has_transport _ _ h))
        (connect_transport-HasTransport d w h)

  made-HasTransport :
      (made : Bool) (d : TwsBatteryDriver F) (m : String) (lost : TwsBatteryDriver F) (v w : W)
      → HasTransport (
          if made
          then Driver.ensure_connected transport (record d { has_transport = made }) w
          else (some m, lost, v))
  made-HasTransport true d m lost v w = ensure_connected-HasTransport _ w refl
  made-HasTransport false d m lost v w = tt

  pub configure-HasTransport :
      (c : BatteryDriverConfig) (d : TwsBatteryDriver F) (w : W)
      → HasTransport (Driver.configure transport c d w)
  unfolding Driver.configure
  configure-HasTransport c d w =
      let (d', w') = Driver.cleanup transport d w in
      let (made, w'') = transport.create c w' in
      made-HasTransport made
        (record d' {
          config = c;
          last_snapshot = record (d'.last_snapshot) { device_address = c.device_address };
        })
        _ _ _ w''
