-- ===== src/Auth/Pake/Laws.antt =====
-- Agreement of the two sides, and what each side has checked when it goes on.
use simple_remote.Base.{◌≡◌, ◌≢◌, ◌↔◌, ◌++◌, ◌⊎◌, ok, err, length, arith}
use simple_remote.Base.Text.{Bytes, Str, utf8}
use simple_remote.Auth.Error.{wrong_code}
use simple_remote.Auth.Code.{OneTimeCode, as_str}
use simple_remote.Auth.Sealed.{SessionKeys}
use simple_remote.Auth.Pake.{
  PakeLib, IsPakeLib, confirmation_failed, to_mac, map_confirmation_err, host_id_bytes, aad,
  viewer_id, code_context, code_scalar, derive_session_keys, viewer_start, viewer_finish,
  host_respond, host_confirm,
}

-- With the same code and the same host id, and messages that arrive unchanged, the exchange runs
-- through on both sides, and both end with the same three keys.
pub same_code_agrees :
    (lib : PakeLib) (law : IsPakeLib lib) (code : OneTimeCode) (host_id : Str) (ra rb : Bytes)
    → (state : lib.StateA) × (pa : Bytes) × (output : lib.Output) × (pb : Bytes) × (mac_b : Bytes)
      × (keys : SessionKeys) × (mac_a : Bytes) × (viewer_start lib ra code host_id ≡ ok (state, pa))
      × (host_respond lib rb code host_id pa ≡ ok (output, pb, mac_b))
      × (viewer_finish lib state pb mac_b ≡ ok (keys, mac_a))
      × (host_confirm lib output mac_a ≡ ok keys)
unfolding viewer_start host_respond viewer_finish host_confirm code_scalar to_mac
    derive_session_keys as_str
same_code_agrees lib law code host_id ra rb =
    let (w, scalar) = law.scalar_total (code_context ++ utf8 code.digits) in
    let (pa, sa, pb, sb, oa, ob, e1, e2, e3, e4, same, va, vb, la, lb) =
      law.agree w viewer_id (host_id_bytes host_id) aad ra rb in
    (
      sa,
      pa,
      ob,
      pb,
      lib.confirmation_mac ob,
      derive_session_keys lib (lib.session_key oa),
      lib.confirmation_mac oa,
      ground (arith, scalar, e1),
      ground (arith, scalar, e2, e4),
      ground (arith, e3, va, lb),
      ground (arith, vb, la, same),
    )

-- The viewer has keys, and a MAC to give away, only after the host's MAC was checked: it had 32
-- bytes and the output of the exchange accepted it. The keys are those of that output.
pub viewer_finish_checked :
    (lib : PakeLib) (state : lib.StateA) (pb mac_b : Bytes) (keys : SessionKeys) (mac_a : Bytes)
    → viewer_finish lib state pb mac_b ≡ ok (keys, mac_a)
    → (output : lib.Output) × (lib.finish_a state pb ≡ ok output)
      × (length mac_b ≡ 32)
      × (lib.verify_peer_confirmation output mac_b ≡ ok tt)
      × (keys ≡ derive_session_keys lib (lib.session_key output))
      × (mac_a ≡ lib.confirmation_mac output)
unfolding viewer_finish to_mac
viewer_finish_checked lib state pb mac_b keys mac_a e = ground arith

-- `confirm` gives keys exactly when the MAC has 32 bytes and the output accepts it. A MAC of another
-- length, or one that fails the confirmation, is `WrongCode`, as is no other case.
pub host_confirm_cases :
    (lib : PakeLib) (output : lib.Output) (mac_a : Bytes)
    → ((host_confirm lib output mac_a ≡ ok (derive_session_keys lib (lib.session_key output)))
        ↔ ((length mac_a ≡ 32) × (lib.verify_peer_confirmation output mac_a ≡ ok tt)))
      × ((host_confirm lib output mac_a ≡ err wrong_code) ↔ (
          (length mac_a ≢ 32)
          ⊎ (lib.verify_peer_confirmation output mac_a ≡ err confirmation_failed)))
unfolding host_confirm to_mac map_confirmation_err
host_confirm_cases lib output mac_a = ground arith
