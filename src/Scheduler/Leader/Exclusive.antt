-- ===== src/Scheduler/Leader/Exclusive.antt =====
-- Several schedulers at one lock.
use distributed_job_schedule.Prelude.{
  ℕ, ◌≡◌, ◌≢◌, ◌⊎◌, refl, inl, inr, true, Option, none, some, ◌==◌, if◌then◌else◌, arith,
  Option-cases, Bool-cases,
}
use distributed_job_schedule.Errors.{ok}
use distributed_job_schedule.Repository.Database.{Link, reachable, refused, lost}
use distributed_job_schedule.Scheduler.Leader.{Conn, Lock, Elector, campaign, resign, is_leader}

pub record Electors : Type 0 where
  pub lock : Lock
  pub elector : ℕ → Elector

-- Elector `i` after a call, the others as they were.
abbrev pub turn : ℕ → Lock × Elector → Electors → Electors
turn i r s = record { lock = r.0; elector = λ k. if k == i then r.1 else s.elector k }

abbrev pub campaign_at : ℕ → Option Conn → Link → Electors → Electors
campaign_at i acquired link s = turn i (campaign acquired link s.lock (s.elector i)).0 s

abbrev pub resign_at : ℕ → Link → Electors → Electors
resign_at i link s = turn i (resign link s.lock (s.elector i)).0 s

-- A pool gives no connection that some elector has kept. No session ends on its own here.
pub data Step : Electors → Electors → Type 0 where
  campaigns :
      (s : Electors) (i : ℕ) (acquired : Option Conn) (link : Link)
      → ((k : ℕ) (c : Conn) → acquired ≡ some c → s.elector k ≢ some c)
      → Step s (campaign_at i acquired link s)
  resigns : (s : Electors) (i : ℕ) (link : Link) → Step s (resign_at i link s)

abbrev pub session_of : Lock → Option Conn
session_of none = none
session_of (some h) = some h.session

pub record IsExclusive (s : Electors) : Type 0 where
  pub holds : (i : ℕ) (c : Conn) → s.elector i ≡ some c → session_of s.lock ≡ some c
  pub apart : (i k : ℕ) (c : Conn) → s.elector i ≡ some c → s.elector k ≡ some c → i ≡ k

-- A campaign takes the lock from no session.
campaign-session :
    (acquired : Option Conn) (link : Link) (l : Lock) (e : Elector) (d : Conn)
    → session_of l ≡ some d
    → session_of (campaign acquired link l e).0.0 ≡ some d
unfolding campaign
campaign-session acquired link l (some c) d h = h
campaign-session none link l none d h = h
campaign-session (some c) refused l none d h = h
campaign-session (some c) reachable none none d h = ground arith
campaign-session (some c) lost none none d h = ground arith
campaign-session (some c) reachable (some held) none d h = ground arith
campaign-session (some c) lost (some held) none d h = ground arith

-- The connection that it leaves is the one that was there or the one from the pool; in the second case
-- the lock is its.
campaign-elector :
    (acquired : Option Conn) (link : Link) (l : Lock) (e : Elector) (c : Conn)
    → (campaign acquired link l e).0.1 ≡ some c
    → (e ≡ some c) ⊎ ((acquired ≡ some c) × (session_of (campaign acquired link l e).0.0 ≡ some c))
unfolding campaign
campaign-elector acquired link l (some d) c h = inl h
campaign-elector none link l none c h = ground arith
campaign-elector (some d) refused l none c h = ground arith
campaign-elector (some d) lost l none c h = ground arith
campaign-elector (some d) reachable none none c h = inr (h, h)
campaign-elector (some d) reachable (some held) none c h = ground arith

resign-elector : (link : Link) (l : Lock) (e : Elector) → (resign link l e).0.1 ≡ none
unfolding resign
resign-elector link l none = refl
resign-elector link l (some c) = refl

resign-session : (link : Link) (l : Lock) → (resign link l none).0.0 ≡ l
unfolding resign
resign-session link l = refl

campaign_at-IsExclusive :
    (s : Electors) (i : ℕ) (acquired : Option Conn) (link : Link)
    → ((k : ℕ) (c : Conn) → acquired ≡ some c → s.elector k ≢ some c)
    → IsExclusive s
    → IsExclusive (campaign_at i acquired link s)
campaign_at-IsExclusive s i acquired link other x =
    let went = campaign-elector acquired link s.lock (s.elector i) in
    let keeps = campaign-session acquired link s.lock (s.elector i) in
    record {
      holds = λ k c h. elim (Bool-cases (k == i)) [
        | inl e ↦ elim (went c (ground arith)) [
          | inl was ↦ keeps c (x.holds i c was)
          | inr new ↦ new.1
        ]
        | inr e ↦ keeps c (x.holds k c (ground arith))
      ];
      apart = λ k m c h h'. elim (Bool-cases (k == i)) [
        | inl e ↦ elim (Bool-cases (m == i)) [
          | inl f ↦ ground arith
          | inr f ↦ elim (went c (ground arith)) [
            | inl was ↦ ground (arith, x.apart i m c was)
            | inr new ↦ ground (arith, other m c new.0)
          ]
        ]
        | inr e ↦ elim (Bool-cases (m == i)) [
          | inl f ↦ elim (went c (ground arith)) [
            | inl was ↦ ground (arith, x.apart k i c)
            | inr new ↦ ground (arith, other k c new.0)
          ]
          | inr f ↦ x.apart k m c (ground arith) (ground arith)
        ]
      ];
    }

resign_at-IsExclusive :
    (s : Electors) (i : ℕ) (link : Link) → IsExclusive s → IsExclusive (resign_at i link s)
resign_at-IsExclusive s i link x =
    let out = resign-elector link s.lock (s.elector i) in
    record {
      holds = λ k c h. elim (Bool-cases (k == i)) [
        | inl e ↦ ground (arith, out)
        | inr e ↦ elim (Option-cases (s.elector i)) [
          | inl none_there ↦
              rw none_there (rw (resign-session link s.lock) (x.holds k c (ground arith)))
          | inr (d, f) ↦ ground (arith, x.holds i d f, x.holds k c, x.apart i k c)
        ]
      ];
      apart = λ k m c h h'. elim (Bool-cases (k == i)) [
        | inl e ↦ ground (arith, out)
        | inr e ↦ elim (Bool-cases (m == i)) [
          | inl f ↦ ground (arith, out)
          | inr f ↦ x.apart k m c (ground arith) (ground arith)
        ]
      ];
    }

-- A step of any elector, over any link, keeps it so that a leader's session has the lock and no two
-- electors have the same connection.
pub step-IsExclusive : (s t : Electors) → Step s t → IsExclusive s → IsExclusive t
step-IsExclusive s t (campaigns u i acquired link other) x =
    campaign_at-IsExclusive u i acquired link other x
step-IsExclusive s t (resigns u i link) x = resign_at-IsExclusive u i link x

pub data Reaches (s : Electors) : Electors → Type 0 where
  here : Reaches s s
  step : (t u : Electors) → Reaches s t → Step t u → Reaches s u

-- No scheduler leads and no session holds the lock.
abbrev pub at_first : Electors
at_first = record { lock = none; elector = λ k. none }

Reaches-IsExclusive : (s t : Electors) → Reaches s t → IsExclusive s → IsExclusive t
Reaches-IsExclusive s t here x = x
Reaches-IsExclusive s t (step u v before next) x =
    step-IsExclusive u t next (Reaches-IsExclusive s u before x)

at_first-IsExclusive : IsExclusive at_first
at_first-IsExclusive = record { holds = λ i c h. ground arith; apart = λ i k c h h'. ground arith }

leaders-same :
    (s : Electors) (i k : ℕ)
    → IsExclusive s
    → is_leader (s.elector i) ≡ true
    → is_leader (s.elector k) ≡ true
    → i ≡ k
leaders-same s i k x li lk = elim (Option-cases (s.elector i)) [
  | inl e ↦ ground arith
  | inr (c, e) ↦ elim (Option-cases (s.elector k)) [
    | inl f ↦ ground arith
    | inr (d, f) ↦ ground (arith, x.holds i c e, x.holds k d f, x.apart i k c e)
  ]
]

-- As long as no session ends on its own, however many schedulers campaign and resign, in any order and
-- over any links: two that lead are the same.
pub Reaches-one_leader :
    (s : Electors) (i k : ℕ)
    → Reaches at_first s
    → is_leader (s.elector i) ≡ true
    → is_leader (s.elector k) ≡ true
    → i ≡ k
Reaches-one_leader s i k r =
    leaders-same s i k (Reaches-IsExclusive at_first s r at_first-IsExclusive)

-- PostgreSQL ends a session and gives its lock free; the elector is not told.
abbrev pub ends : Electors → Electors
ends s = record s { lock = none }

-- If the session of a leader ends, the next campaign of another scheduler that gets a connection
-- succeeds, and both lead: the first one's next `Campaign` answers true and asks nobody.
pub ends-two_leaders :
    (s : Electors) (i k : ℕ) (c d : Conn) (acquired : Option Conn) (link : Link)
    → s.elector i ≡ some c
    → s.elector k ≡ none
    → let s' = campaign_at k (some d) reachable (ends s) in
      (is_leader (s'.elector i) ≡ true)
      × (is_leader (s'.elector k) ≡ true)
      × ((campaign acquired link s'.lock (s'.elector i)).1 ≡ ok true)
unfolding campaign
ends-two_leaders s i k c d acquired link li lk = ground arith
