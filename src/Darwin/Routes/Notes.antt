-- ===== src/Darwin/Routes/Notes.antt =====
-- routes_darwin.go: the lists that note targets.
use urnetwork_client.Base.{refl, [], ◌∷◌, arith, Bytes}
use urnetwork_client.Darwin.Routes.{
  Target, host, ctrl, dns_bypass, excluded, scoped_excluded, split_up, extra_added, dns_tun,
}
use urnetwork_client.Darwin.Routes.Methods.{hosts}
use urnetwork_client.Darwin.Routes.Kept.{is_in, is_in-append, hosts-append, Notes}

pub ctrl-Notes : (ip : Bytes) → Notes (host ip) (ctrl ip)
unfolding is_in
ctrl-Notes ip = record {
  recorded = λ d s.
      rw
        (
          hosts-append s.0.added_ctrl_bypass (ip ∷ []),
          is_in-append d (hosts s.0.added_ctrl_bypass) (host ip ∷ []),
        )
        (ground arith);
  log = λ s. refl;
  resolvers = λ s. (refl, refl);
  switch = λ s. (refl, refl);
}

pub dns_bypass-Notes : (ip : Bytes) → Notes (host ip) (dns_bypass ip)
unfolding is_in
dns_bypass-Notes ip = record {
  recorded = λ d s.
      rw
        (
          hosts-append s.0.added_dns_bypass (ip ∷ []),
          is_in-append d (hosts s.0.added_dns_bypass) (host ip ∷ []),
        )
        (ground arith);
  log = λ s. refl;
  resolvers = λ s. (refl, refl);
  switch = λ s. (refl, refl);
}

module _ (t : Target) where
  pub excluded-Notes : Notes t (excluded t)
  unfolding is_in
  excluded-Notes = record {
    recorded = λ d s. rw (is_in-append d s.0.added_excludes (t ∷ [])) (ground arith);
    log = λ s. refl;
    resolvers = λ s. (refl, refl);
    switch = λ s. (refl, refl);
  }

  pub scoped_excluded-Notes : Notes t (scoped_excluded t)
  unfolding is_in
  scoped_excluded-Notes = record {
    recorded = λ d s. rw (is_in-append d s.0.added_scoped_excls (t ∷ [])) (ground arith);
    log = λ s. refl;
    resolvers = λ s. (refl, refl);
    switch = λ s. (refl, refl);
  }

  pub split_up-Notes : Notes t (split_up t)
  unfolding is_in
  split_up-Notes = record {
    recorded = λ d s. rw (is_in-append d s.0.added_splits (t ∷ [])) (ground arith);
    log = λ s. refl;
    resolvers = λ s. (refl, refl);
    switch = λ s. (refl, refl);
  }

  pub extra_added-Notes : Notes t (extra_added t)
  unfolding is_in
  extra_added-Notes = record {
    recorded = λ d s. rw (is_in-append d s.0.added_extra (t ∷ [])) (ground arith);
    log = λ s. refl;
    resolvers = λ s. (refl, refl);
    switch = λ s. (refl, refl);
  }

  pub dns_tun-Notes : Notes t (dns_tun t)
  unfolding is_in
  dns_tun-Notes = record {
    recorded = λ d s. rw (is_in-append d s.0.added_dns_tun (t ∷ [])) (ground arith);
    log = λ s. refl;
    resolvers = λ s. (refl, refl);
    switch = λ s. (refl, refl);
  }
