-- ===== src/Dns/Tids/Refines.antt =====
-- Sequences of occupy_tid and release_tid of src/service/ss_dns.c, against a set of ids.
use simple_socks.Common.{
  ℕ, ◌<◌, ◌≡◌, refl, sym, ◌∙◌, ◌↔◌, Option, some, List, [], ◌∷◌, ◌==◌, if◌then◌else◌, ◌>>=◌,
  Succeeds, Succeeds-bind,
}
use simple_socks.Dns.{StrMap, Service}
use simple_socks.Dns.Tids.{occupy_tid, release_tid, is_tid_free}
use simple_socks.Dns.Tids.Flags.{
  IsFlags, ids, marked, occupy_tid-Marks, release_tid-Marks, is_tid_free-marked,
}

pub data Call : Type 0 where
  occupy release : ℕ → Call

-- A set of ids: 1 for those that are in it, else 0.
abbrev pub Ids : Type 0
Ids = ℕ → ℕ

abbrev pub act : Call → Ids → Ids
act (occupy tid) set t = if t == tid then 1 else set t
act (release tid) set t = if t == tid then 0 else set t

abbrev pub act_calls : List Call → Ids → Ids
act_calls [] set = set
act_calls (c ∷ cs) set = act_calls cs (act c set)

-- The calls are of ids that have a place in the flags.
abbrev pub InRange : List Call → Type 0
InRange [] = Unit
InRange (occupy tid ∷ cs) = (tid < ids) × InRange cs
InRange (release tid ∷ cs) = (tid < ids) × InRange cs

act_calls-same :
    (cs : List Call) (set set' : Ids)
    → ((t : ℕ) → set t ≡ set' t)
    → (t : ℕ) → act_calls cs set t ≡ act_calls cs set' t
act_calls-same [] set set' same t = same t
act_calls-same (occupy tid ∷ cs) set set' same t =
    act_calls-same cs (act (occupy tid) set) (act (occupy tid) set') (λ t'. rw (same t')) t
act_calls-same (release tid ∷ cs) set set' same t =
    act_calls-same cs (act (release tid) set) (act (release tid) set') (λ t'. rw (same t')) t

module _ (strmap : StrMap) where
  abbrev pub run : Service strmap → Call → Option (Service strmap)
  run service (occupy tid) = occupy_tid strmap service tid
  run service (release tid) = release_tid strmap service tid

  abbrev pub run_calls : Service strmap → List Call → Option (Service strmap)
  run_calls service [] = some service
  run_calls service (c ∷ cs) = run service c >>= λ service'. run_calls service' cs

  -- The flags mark the ids of a set, and is_tid_free returns 0 just for those that are not in it.
  pub record Stands (set : Ids) (service : Service strmap) : Type 0 where
    pub flags : IsFlags service.tid_flags
    pub marks : (t : ℕ) → marked service.tid_flags t ≡ set t
    pub answers :
        (t : ℕ) → t < ids → Succeeds (λ r. (r ≡ 0) ↔ (set t ≡ 0)) (is_tid_free service.tid_flags t)

  run_calls-marks :
      (cs : List Call) (service : Service strmap)
      → IsFlags service.tid_flags
      → InRange cs
      → Succeeds
          (λ service'.
            IsFlags service'.tid_flags
            × ((t : ℕ) → marked service'.tid_flags t ≡ act_calls cs (marked service.tid_flags) t))
          (run_calls service cs)
  run_calls-marks [] service f r = (service, refl, (f, λ t. refl))
  run_calls-marks (occupy tid ∷ cs) service f (small, r) =
      Succeeds-bind (occupy_tid-Marks strmap service tid f small) λ service' (f', marks, _).
        let (last, runs, (f'', same)) = run_calls-marks cs service' f' r in
        (
          last,
          runs,
          (
            f'',
            λ t.
                same t
                ∙ act_calls-same cs (marked service'.tid_flags)
                    (act (occupy tid) (marked service.tid_flags)) marks t,
          ),
        )
  run_calls-marks (release tid ∷ cs) service f (small, r) =
      Succeeds-bind (release_tid-Marks strmap service tid f small) λ service' (f', marks, _).
        let (last, runs, (f'', same)) = run_calls-marks cs service' f' r in
        (
          last,
          runs,
          (
            f'',
            λ t.
                same t
                ∙ act_calls-same cs (marked service'.tid_flags)
                    (act (release tid) (marked service.tid_flags)) marks t,
          ),
        )

  -- Any calls of occupy_tid and release_tid, of ids below 65520, on well-formed flags run without a
  -- fault and act on the marked ids as on a set; is_tid_free then returns 0 for the ids outside of
  -- the set, and another number for those in it.
  pub run_calls-Stands :
      (cs : List Call) (service : Service strmap)
      → IsFlags service.tid_flags
      → InRange cs
      → Succeeds (Stands (act_calls cs (marked service.tid_flags))) (run_calls service cs)
  run_calls-Stands cs service f r =
      let (last, runs, (f', same)) = run_calls-marks cs service f r in
      (
        last,
        runs,
        record {
          flags = f';
          marks = same;
          answers = λ t small.
              let (x, ends, e) = is_tid_free-marked last.tid_flags t f' small in
              (x, ends, ((λ h. sym (same t) ∙ e.0 h), λ h. e.1 (same t ∙ h)));
        },
      )
