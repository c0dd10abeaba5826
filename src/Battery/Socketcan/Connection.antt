-- ===== src/Battery/Socketcan/Connection.antt =====
-- What `connect` leaves behind.
use device_manager.Common.{
  ℕ, String, true, false, not, Option, none, some, ◌≡◌, refl, arith, both_branches,
}
use device_manager.Battery.Can.{SocketCanTransport, wire_id, filter_mask}
use device_manager.Battery.Socketcan.{Socket, disconnect, bind_to, set_up, connect}

-- Whether there is an error and whether there is a connection.
abbrev pub Tells : {W : Type 0} → Option String × SocketCanTransport × W → Type 0
Tells (none, t, w) = t.connected ≡ true
Tells (some e, t, w) = t.connected ≡ false

module _ {W : Type 0} (os : Socket W) where
  disconnect-connected : (t : SocketCanTransport) (w : W) → (disconnect os t w).0.connected ≡ false
  unfolding disconnect
  disconnect-connected t w = ground arith

  bind_to-Tells :
      (x : Option ℕ × W) (t : SocketCanTransport) → t.connected ≡ true → Tells (bind_to os x t)
  bind_to-Tells (none, w) t h = disconnect-connected t w
  bind_to-Tells (some index, w) t h =
      both_branches Tells (os.bind index w).0 _ _ h (disconnect-connected t _)

  set_up-Tells : (t : SocketCanTransport) (w : W) → t.connected ≡ true → Tells (set_up os t w)
  unfolding set_up
  set_up-Tells t w h =
      let (filtered, w1) = os.set_filter (wire_id t) (filter_mask t) (os.set_options w) in
      let (nonblocking, w2) = os.set_nonblocking w1 in
      both_branches (Tells {W = W}) (not filtered) _ _ (disconnect-connected t w1) (
        both_branches (Tells {W = W}) (not nonblocking) _ _ (disconnect-connected t w2)
          (bind_to-Tells (os.interface_index t.interface_name w2) t h))

  -- `connect` leaves a connected transport behind exactly when it returns no error, whichever call
  -- of the operating system fails.
  connect-Tells : (t : SocketCanTransport) (w : W) → Tells (connect os t w)
  unfolding connect
  connect-Tells t w =
      let (t', w0) = disconnect os t w in
      let (made, w1) = os.socket w0 in
      both_branches (Tells {W = W}) (not made) _ _ (disconnect-connected t w)
        (set_up-Tells (record t' { connected = true }) w1 refl)
