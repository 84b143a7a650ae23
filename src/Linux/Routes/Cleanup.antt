-- ===== src/Linux/Routes/Cleanup.antt =====
-- routes_linux.go: what `Cleanup` undoes.
use urnetwork_client.Base.{
  ◌≡◌, refl, sym, ap, ◌∙◌, Bool, true, false, ◌||◌, List, [], ◌∷◌, ◌++◌, append_assoc, append-nil,
  Bytes, if◌then◌else◌, Bool-cases, inl, inr,
}
use urnetwork_client.Text.{equal}
use urnetwork_client.Linux.Routes.{
  Names, anywhere, Command, del_route, link_down, addr_flush, Manager, Session, low_half, high_half,
  delete_all, cleanup, Op, run_ops,
}
use urnetwork_client.Linux.Routes.Recorded.{
  is_in, adds, unblocks, splits, is_recorded, or_assoc, or_false, unblocks-append, run_ops-Keeps,
}

-- Whether a command deletes a route to `d`.
unfoldable pub deletes : Bytes → List Command → Bool
deletes d [] = false
deletes d (del_route e p ∷ cs) = equal d e || deletes d cs
deletes d (_ ∷ cs) = deletes d cs

-- The deletions of `Cleanup`.
abbrev pub dels : List Bytes → List Command
dels [] = []
dels (x ∷ xs) = del_route x anywhere ∷ dels xs

delete_all_lem : (xs : List Bytes) (log : List Command) → delete_all xs log ≡ log ++ dels xs
unfolding delete_all
delete_all_lem [] log = sym (append-nil log)
delete_all_lem (x ∷ xs) log =
    delete_all_lem xs (log ++ (del_route x anywhere ∷ [])) ∙ append_assoc log _ _

deletes-dels :
    (d : Bytes) (xs : List Bytes) (cs : List Command)
    → deletes d (dels xs ++ cs) ≡ (is_in d xs || deletes d cs)
unfolding deletes is_in
deletes-dels d [] cs = refl
deletes-dels d (x ∷ xs) cs =
    rw (deletes-dels d xs cs) (sym (or_assoc (equal d x) (is_in d xs) (deletes d cs)))

-- What `Cleanup` runs where no blackhole is to be taken away.
abbrev pub cleaning_of : Manager → List Command
cleaning_of m =
    dels (splits m)
    ++ (dels m.added_bypass
        ++ (dels m.added_exclude
            ++ (dels m.added_extra
                ++ (dels m.added_dns_tun ++ (link_down m.tun_name ∷ addr_flush m.tun_name ∷ [])))))

pub deletes-cleaning_of : (d : Bytes) (m : Manager) → deletes d (cleaning_of m) ≡ is_recorded d m
unfolding deletes is_in
deletes-cleaning_of d m =
    rw
      (
        deletes-dels d (splits m) (
            dels m.added_bypass
            ++ (dels m.added_exclude
                ++ (dels m.added_extra
                    ++ (dels m.added_dns_tun
                        ++ (link_down m.tun_name ∷ addr_flush m.tun_name ∷ []))))),
        deletes-dels d m.added_bypass (
            dels m.added_exclude
            ++ (dels m.added_extra
                ++ (dels m.added_dns_tun ++ (link_down m.tun_name ∷ addr_flush m.tun_name ∷ [])))),
        deletes-dels d m.added_exclude (
            dels m.added_extra
            ++ (dels m.added_dns_tun ++ (link_down m.tun_name ∷ addr_flush m.tun_name ∷ []))),
        deletes-dels d m.added_extra
            (dels m.added_dns_tun ++ (link_down m.tun_name ∷ addr_flush m.tun_name ∷ [])),
        deletes-dels d m.added_dns_tun (link_down m.tun_name ∷ addr_flush m.tun_name ∷ []),
        or_false (is_in d m.added_dns_tun),
      )
      refl

-- The kill switch is asked for where it is in place.
abbrev pub IsSwitch : Manager → Type 0
IsSwitch m = m.kill_switch_added ≡ true → m.kill_switch ≡ true

down_lem :
    (m : Manager) (log : List Command)
    → (delete_all m.added_dns_tun (
            delete_all m.added_extra
              (delete_all m.added_exclude (delete_all m.added_bypass (delete_all (splits m) log))))
          ++ (link_down m.tun_name ∷ []))
        ++ (addr_flush m.tun_name ∷ [])
      ≡ log ++ cleaning_of m
down_lem m log = simp (delete_all_lem, append_assoc)

splits_lem :
    (m : Manager) (log : List Command)
    → (if m.added_splits then delete_all (low_half ∷ high_half ∷ []) log else log)
      ≡ delete_all (splits m) log
unfolding delete_all
splits_lem m log = elim (Bool-cases m.added_splits) [ inl k ↦ rw k refl | inr k ↦ rw k refl ]

pub cleanup_lem :
    (m : Manager) (log : List Command) → IsSwitch m → cleanup (m, log) ≡ log ++ cleaning_of m
unfolding cleanup delete_all
cleanup_lem m log h = elim (Bool-cases m.kill_switch_added) [
  | inl e ↦ rw (e, h e, splits_lem m log) (down_lem m log)
  | inr e ↦ rw (e, splits_lem m log) (down_lem m log)
]

unblocks-dels : (xs : List Bytes) (cs : List Command) → unblocks (dels xs ++ cs) ≡ unblocks cs
unfolding unblocks
unblocks-dels [] cs = refl
unblocks-dels (x ∷ xs) cs = unblocks-dels xs cs

unblocks-cleaning_of : (m : Manager) → unblocks (cleaning_of m) ≡ false
unfolding unblocks
unblocks-cleaning_of m = simp unblocks-dels

-- The session `s`, the operations `ops` and a cleanup: by the commands that are issued, whether they
-- succeed or not.
pub record Undone (N : Names) (ops : List Op) (s : Session) : Type 0 where
  pub issued : List Command
  pub cleaning : List Command
  pub ran : (run_ops N ops s).1 ≡ s.1 ++ issued
  pub cleaned : cleanup (run_ops N ops s) ≡ (s.1 ++ issued) ++ cleaning
  pub undone : (d : Bytes) → deletes d cleaning ≡ adds d issued
  pub blocked : unblocks (issued ++ cleaning) ≡ false

-- From a manager with nothing on record.
pub run_ops-Undone :
    (N : Names) (ops : List Op) (s : Session)
    → ((d : Bytes) → is_recorded d s.0 ≡ false)
    → IsSwitch s.0
    → Undone N ops s
run_ops-Undone N ops s h k =
    let t = run_ops N ops s in
    let K = run_ops-Keeps N ops s in
    record {
      issued = K.issued;
      cleaning = cleaning_of t.0;
      ran = K.log;
      cleaned =
          cleanup_lem t.0 t.1 (λ e. K.same.1 ∙ k (sym K.same.0 ∙ e))
          ∙ ap (λ l. l ++ cleaning_of t.0) K.log;
      undone = λ d. rw (deletes-cleaning_of d t.0, K.recorded d, h d) refl;
      blocked = rw (unblocks-append K.issued (cleaning_of t.0), K.quiet) (unblocks-cleaning_of t.0);
    }
