-- ===== src/Gen/Device/Setup.antt =====
-- gen/priv/eth_dev.cpp: the wait for the link, and the offloads.
use Prim.Native.Nat.{bit_or}
use traffic_generator.Base.{
  ℕ, zero, suc, ◌<◌, ◌≡◌, refl, Bool, true, false, Bool-cases, if◌then◌else◌, ◌⊎◌, inl, inr, arith,
}
use traffic_generator.Gen.Device.{
  Flags, DevInfo, DevConf, Nic, Dev, sleep, link_get, call, wait_link, sleep_us, check_capa,
}

module _ {D : Type 0} (nic : Nic D) (port : ℕ) where
  -- One look at the link, after a sleep, and the device after so many of them.
  abbrev pub look : Dev D → Bool × Dev D
  look d = call nic (link_get port) (call nic (sleep sleep_us) d).1

  abbrev pub after : ℕ → Dev D → Dev D
  after zero d = d
  after (suc k) d = after k (look d).1

  pub is_up_at : ℕ → Dev D → Bool
  is_up_at k d = (look (after k d)).0

  -- No look before the `n`-th sees the link up.
  abbrev pub DownBefore : ℕ → Dev D → Type 0
  DownBefore n d = (j : ℕ) → j < n → is_up_at j d ≡ false

  DownBefore-suc :
      (n : ℕ) (d : Dev D) → (look d).0 ≡ false → DownBefore n (look d).1 → DownBefore (suc n) d
  unfolding is_up_at
  DownBefore-suc n d first rest zero h = first
  DownBefore-suc n d first rest (suc j) h = rest j (omega arith)

  -- The wait for the link looks at it until it is up, `n` times at most: it ends with the first look
  -- that sees it up, or without one if none of the `n` does. It never waits on.
  pub wait_link-first :
      (n : ℕ) (d : Dev D)
      → ((k : ℕ) × (k < n)
          × (is_up_at k d ≡ true)
          × DownBefore k d
          × (wait_link nic n port d ≡ (true, after (suc k) d)))
        ⊎ (DownBefore n d × (wait_link nic n port d ≡ (false, after n d)))
  unfolding wait_link is_up_at
  wait_link-first zero d = inr (λ j h. absurd (omega (arith, h)), refl)
  wait_link-first (suc n) d = elim (Bool-cases (look d).0) [
    | inl up ↦ inl (0, omega arith, up, λ j h. absurd (omega (arith, h)), rw up refl)
    | inr down ↦ elim (wait_link-first n (look d).1) [
      | inl (k, h, e, before, w) ↦
          inl (suc k, omega arith, e, DownBefore-suc k d down before, rw (down, w) refl)
      | inr (before, w) ↦ inr (DownBefore-suc n d down before, rw (down, w) refl)
    ]
  ]

-- What is enabled on a device: the checksums, which it offers all, and the fast release of mbufs
-- exactly if it offers that.
pub record IsOffered (flags : Flags) (info : DevInfo) (conf : DevConf) : Type 0 where
  pub rx : check_capa info.rx_offload_capa flags.rx_cksum ≡ true
  pub tx_ipv4 : check_capa info.tx_offload_capa flags.tx_ipv4_cksum ≡ true
  pub tx_tcp_udp : check_capa info.tx_offload_capa flags.tx_tcp_udp_cksum ≡ true
  pub rx_conf : conf.rx_offloads ≡ bit_or 0 flags.rx_cksum
  pub tx_conf : conf.tx_offloads ≡ (
      if check_capa info.tx_offload_capa flags.tx_fast_free
      then bit_or (bit_or (bit_or 0 flags.tx_ipv4_cksum) flags.tx_tcp_udp_cksum) flags.tx_fast_free
      else bit_or (bit_or 0 flags.tx_ipv4_cksum) flags.tx_tcp_udp_cksum)
