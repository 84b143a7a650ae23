-- ===== src/Open/Opened.antt =====
-- What `cmdOpen` opens, and that it closes it.
use urnetwork_client.Account.{parse_client_id}
use urnetwork_client.Account
use urnetwork_client.Base.{
  ℕ, zero, suc, ◌+◌, ◌≡◌, refl, ap, ◌∙◌, true, List, [], ◌∷◌, ◌++◌, Option, none, some, arith,
  Bytes, codes, length, ◌==◌, ==_iff, Bool-cases, Option-cases, inl, inr,
}
use urnetwork_client.Base.Int.{pos}
use urnetwork_client.Config.{default_connect_url}
use urnetwork_client.Jwt.{load_jwt}
use urnetwork_client.Lifetime.{acquires, releases, does, held}
use urnetwork_client.Lifetime.Scopes.{IsScoped, around-IsScoped}
use urnetwork_client.Open.{
  Resource, client, transport, Deed, prints, waits, Trace, rules_for, with_transports, rounds,
  no_jwt, no_client_id, bad_client_id, Link, Result, failed, opened, open_with, cmd_open,
}
use urnetwork_client.Specs.{Connect}
use urnetwork_client.Text.{is_empty}
use urnetwork_client.Text.Laws.{is_empty_lem}
use urnetwork_client.Util.{Opts, get_string_or, get_int_or, must_string}

with_transports-IsScoped :
    (n k i : ℕ) (rs : List Resource)
    → length rs + k ≡ n + 1
    → IsScoped (rules_for n) (with_transports k i) rs
unfolding with_transports held
with_transports-IsScoped n zero i rs h =
    let e : (length rs == n + 1) ≡ true = (==_iff (length rs) (n + 1)).1 (omega arith) in rw e refl
with_transports-IsScoped n (suc k) i rs h =
    around-IsScoped (rules_for n) (transport i) (with_transports k (i + 1)) rs ((==_iff i i).1 refl)
      (with_transports-IsScoped n k (i + 1) (transport i ∷ rs) (omega (arith, h)))

-- What is acquired along a trace, and what is done.
pub acquired : Trace → List Resource
acquired [] = []
acquired (acquires r ∷ t) = r ∷ acquired t
acquired (releases r ∷ t) = acquired t
acquired (does a ∷ t) = acquired t

pub done : Trace → List Deed
done [] = []
done (acquires r ∷ t) = done t
done (releases r ∷ t) = done t
done (does a ∷ t) = a ∷ done t

-- The transports with these many numbers from `i` on.
pub transports : ℕ → ℕ → List Resource
transports zero i = []
transports (suc k) i = transport i ∷ transports k (i + 1)

acquired-release : (t : Trace) (r : Resource) → acquired (t ++ (releases r ∷ [])) ≡ acquired t
unfolding acquired
acquired-release [] r = refl
acquired-release (acquires q ∷ t) r = ap (◌∷◌ q) (acquired-release t r)
acquired-release (releases q ∷ t) r = acquired-release t r
acquired-release (does a ∷ t) r = acquired-release t r

done-release : (t : Trace) (r : Resource) → done (t ++ (releases r ∷ [])) ≡ done t
unfolding done
done-release [] r = refl
done-release (acquires q ∷ t) r = done-release t r
done-release (releases q ∷ t) r = done-release t r
done-release (does a ∷ t) r = ap (◌∷◌ a) (done-release t r)

acquired-with_transports : (k i : ℕ) → acquired (with_transports k i) ≡ transports k i
unfolding acquired with_transports transports
acquired-with_transports zero i = refl
acquired-with_transports (suc k) i = ap (◌∷◌ (transport i)) (
    acquired-release (with_transports k (i + 1)) (transport i) ∙ acquired-with_transports k (i + 1))

done-with_transports : (k i : ℕ) → done (with_transports k i) ≡ prints ∷ waits ∷ []
unfolding done with_transports
done-with_transports zero i = refl
done-with_transports (suc k) i =
    done-release (with_transports k (i + 1)) (transport i) ∙ done-with_transports k (i + 1)

-- A run that opens the client and `n` transports, prints its message and waits, each while all of them
-- are held, and then closes the newest first.
pub record Runs (n : ℕ) (t : Trace) : Type 0 where
  pub opens : acquired t ≡ client ∷ transports n 0
  pub does_both : done t ≡ prints ∷ waits ∷ []
  pub closes : held (rules_for n) t [] ≡ some []

with_client-Runs :
    (n : ℕ) → Runs n (acquires client ∷ (with_transports n 0 ++ (releases client ∷ [])))
unfolding acquired done
with_client-Runs n = record {
  opens =
      ap (◌∷◌ client)
        (acquired-release (with_transports n 0) client ∙ acquired-with_transports n 0);
  does_both = done-release (with_transports n 0) client ∙ done-with_transports n 0;
  closes =
      around-IsScoped (rules_for n) client (with_transports n 0) [] refl
        (with_transports-IsScoped n n 0 (client ∷ []) (omega arith));
}

-- How the command ends.
module _ (C : Connect) (h : Account.Host) (opts : Opts) (file : Option Bytes) where
  open C use {ProviderId, parse_id}

  pub data Ends : Result ProviderId → Type 0 where
    without_token : load_jwt (must_string opts (codes "--jwt")) file ≡ none → Ends (failed no_jwt)
    without_client :
        (jwt : Bytes)
        → load_jwt (must_string opts (codes "--jwt")) file ≡ some jwt
        → parse_client_id h jwt ≡ []
        → Ends (failed no_client_id)
    with_bad_client :
        (jwt : Bytes)
        → load_jwt (must_string opts (codes "--jwt")) file ≡ some jwt
        → parse_id (parse_client_id h jwt) ≡ none
        → Ends (failed bad_client_id)
    with_client :
        (jwt : Bytes) (id : ProviderId) (link : Link) (t : Trace)
        → load_jwt (must_string opts (codes "--jwt")) file ≡ some jwt
        → parse_id (parse_client_id h jwt) ≡ some id
        → link.by_jwt ≡ jwt
        → link.url ≡ get_string_or opts (codes "--connect_url") default_connect_url ++ codes "/"
        → Runs (rounds (get_int_or opts (codes "--transports") (pos 4))) t
        → Ends (opened id link t)

  open_with-Ends :
      (jwt : Bytes)
      → load_jwt (must_string opts (codes "--jwt")) file ≡ some jwt
      → Ends (open_with C h opts jwt)
  unfolding open_with
  open_with-Ends jwt l = elim (Bool-cases (is_empty (parse_client_id h jwt))) [
    | inl e ↦ rw e (without_client jwt l (is_empty_lem (parse_client_id h jwt) e))
    | inr e ↦ rw e (elim (Option-cases (parse_id (parse_client_id h jwt))) [
      | inl k ↦ rw (k, open_with) (with_bad_client jwt l k)
      | inr (id, k) ↦
          rw (k, open_with)
            (with_client jwt id _ _ l k refl refl
              (with_client-Runs (rounds (get_int_or opts (codes "--transports") (pos 4)))))
    ])
  ]

  -- `open` fails where there is no token, where its token names no client, or where that is no
  -- identifier. Else it opens the client of that identifier, and as many transports as are asked for,
  -- none where the number is not positive, with that token and the connect URL behind which a slash
  -- stands. Once all of them are open it prints its message and then waits, once each, and then it
  -- closes the transports, the newest first, and the client at last.
  pub cmd_open-Ends : Ends (cmd_open C h opts file)
  unfolding cmd_open
  cmd_open-Ends = elim (Option-cases (load_jwt (must_string opts (codes "--jwt")) file)) [
    | inl e ↦ rw (e, cmd_open) (without_token e)
    | inr (jwt, e) ↦ rw (e, cmd_open) (open_with-Ends jwt e)
  ]
