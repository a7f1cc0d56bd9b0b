-- ===== src/Supplicant/Rules.antt =====
-- Rules for the parts of the driver's methods: what follows an action has to hold for whatever the
-- action may return.
use usg_supplicant.Common.{ℕ, Bool, true, false, List, Option, Result, ok, err, map_err, ◌≡◌, refl}
use usg_supplicant.Common.Exec.{Post, Post-lift, Post-call, lift, ◌>>=◌}
use usg_supplicant.Fips.{FipsTlsError}
use usg_supplicant.Fips.{Tunnel}
use usg_supplicant.Tlv.Raw.{RawTlv, encode_all}
use usg_supplicant.Outer.{TeapOuter}
use usg_supplicant.Outer.Reassembler
use usg_supplicant.Outer.Reassembler.{Reassembler}
use usg_supplicant.Supplicant.Types.{decode, Violation, DriverError, TeapDriver}
use usg_supplicant.Supplicant.Driver
use usg_supplicant.Supplicant.Driver.{Act}

module _ {T I A B : Type 0} (next : A → Act T I B) (Q : B → TeapDriver T I → Type 0)
    (d : TeapDriver T I) where
  pub bind-lift :
      {E : Type 0} (f : E → DriverError) (r : Result E A)
      → ((a : A) → r ≡ ok a → Post Q (next a d))
      → Post Q ((lift (map_err f r) >>= next) d)
  bind-lift f r h = Post-lift Q next f r d h

  pub bind-on_tunnel :
      (m : T → Result FipsTlsError A × T)
      → ((a : A) (t : T) → m d.tunnel ≡ (ok a, t) → Post Q (next a (record d { tunnel = t })))
      → Post Q ((Driver.on_tunnel m >>= next) d)
  unfolding ◌>>=◌
  bind-on_tunnel m h =
      Post-call Q next DriverError.tls (m d.tunnel) (λ t. record d { tunnel = t }) d h

module _ {T I B : Type 0} (Q : B → TeapDriver T I → Type 0) (d : TeapDriver T I) where
  pub bind-push_outer :
      (outer : TeapOuter) (next : Option (List ℕ) → Act T I B)
      → ((m : Option (List ℕ)) (reasm : Reassembler) → Post Q (next m (record d { reasm = reasm })))
      → Post Q ((Driver.push_outer outer >>= next) d)
  unfolding ◌>>=◌ Driver.push_outer
  bind-push_outer outer next h =
      Post-call Q next DriverError.decode (Reassembler.push d.reasm outer)
        (λ reasm. record d { reasm = reasm }) d (λ m reasm _. h m reasm)

  pub bind-require :
      (b : Bool) (v : Violation) (next : Unit {0} → Act T I B)
      → (b ≡ true → Post Q (next tt d))
      → Post Q ((Driver.require b v >>= next) d)
  unfolding ◌>>=◌
  bind-require true v next h = h refl
  bind-require false v next h = tt

  pub Post-on_tunnel :
      (m : T → Result FipsTlsError B × T)
      → ((b : B) (t : T) → m d.tunnel ≡ (ok b, t) → Q b (record d { tunnel = t }))
      → Post Q (Driver.on_tunnel m d)
  Post-on_tunnel m h = ran (m d.tunnel) refl
    where
      ran : (p : Result FipsTlsError B × T) → m d.tunnel ≡ p → Post Q (Driver.on_tunnel (λ _. p) d)
      ran (ok b, t) e = h b t e
      ran (err x, t) e = tt

module _ {T I : Type 0} (tunnel : Tunnel T) where
  pub Post-protect_tlvs :
      (tlvs : List RawTlv) (d : TeapDriver T I) (P : TeapDriver T I → Type 0)
      → ((bytes records : List ℕ) (t : T)
          → tunnel.protect bytes d.tunnel ≡ (ok records, t)
          → P (record d { tunnel = t }))
      → Post (λ _ e. P e) (Driver.protect_tlvs tunnel tlvs d)
  unfolding Driver.protect_tlvs
  Post-protect_tlvs tlvs d P h =
      bind-lift _ (λ (_ : List ℕ) e. P e) d decode (encode_all tlvs)
        (λ bytes _. Post-on_tunnel (λ _ e. P e) d (tunnel.protect bytes) (h bytes))
