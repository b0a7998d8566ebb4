-- ===== src/Server/Following.antt =====
-- internal/server/server.go: a client that asks for the log of a job page by page, with the
-- `next_after_id` of a page as the `after_id` of the next one.
use cartolensia.Prelude.{
  ℕ, zero, suc, ◌-◌, ◌≤◌, ◌<◌, true, false, List, [], ◌∷◌, ◌++◌, ◌≡◌, refl, arith, leb, take, drop,
  length, length-drop, take-append-drop, All, All-append, All-mono,
}
use mathlib.Core.List.{append_assoc}
use cartolensia.Jobs.{LogLine}
use cartolensia.Server.Logs.{log_page_limit, is_seen, lines_after, last_id, paginate_logs}

-- The identifiers rise, the first one above the given number.
abbrev pub IsRising : ℕ → List LogLine → Type 0
IsRising above [] = Unit
IsRising above (line ∷ lines) = (above < line.id) × IsRising line.id lines

abbrev more : (ℕ → List LogLine × ℕ) → List LogLine × ℕ → List LogLine
more ask ([], next) = []
more ask (line ∷ lines, next) = (line ∷ lines) ++ (ask next).0

-- The lines that a client gets with at most so many requests; it stops at an empty page.
abbrev pub follow : ℕ → ℕ → ℕ → List LogLine → List LogLine
follow zero after_id limit logs = []
follow (suc requests) after_id limit logs =
    more (λ next. (follow requests next limit logs, next)) (paginate_logs after_id limit logs)

abbrev IsPast : ℕ → LogLine → Type 0
IsPast id line = (0 < line.id) × (line.id ≤ id)

lines_after-past :
    (id room : ℕ) (front back : List LogLine)
    → All (IsPast id) front
    → lines_after id room (front ++ back) ≡ lines_after id room back
unfolding lines_after
lines_after-past id room [] back p = unfold lines_after in refl
lines_after-past id room (line ∷ front) back ((a, b), p) =
    let seen : is_seen id line ≡ true = ground (arith, a, b) in
    rw (seen, lines_after-past id room front back p) refl

lines_after-rising :
    (id above room : ℕ) (lines : List LogLine)
    → id ≤ above
    → IsRising above lines
    → lines_after id (suc room) lines ≡ take (suc room) lines
unfolding lines_after
lines_after-rising id above room [] h r = refl
lines_after-rising id above zero (line ∷ lines) h (a, r) =
    let unseen : is_seen id line ≡ false = ground (arith, h, a) in rw (unseen) refl
lines_after-rising id above (suc room) (line ∷ lines) h (a, r) =
    let unseen : is_seen id line ≡ false = ground (arith, h, a) in
    let rest = lines_after-rising id line.id room lines (omega (arith, h, a)) r in
    let open_still : leb (suc (suc room)) 1 ≡ false = ground arith in
    let less : suc (suc room) - 1 ≡ suc room = omega arith in
    rw (unseen, open_still, less, rest) refl

IsPast-mono :
    (id next : ℕ) (lines : List LogLine)
    → id ≤ next
    → All (IsPast id) lines
    → All (IsPast next) lines
IsPast-mono id next lines h = All-mono (λ line (a, b). (a, omega (arith, b, h))) lines

-- What is taken is past its last identifier, and what is left rises above it.
taken-IsPast :
    (above room : ℕ) (lines : List LogLine)
    → IsRising above lines
    → (above ≤ last_id above (take room lines))
      × All (IsPast (last_id above (take room lines))) (take room lines)
      × IsRising (last_id above (take room lines)) (drop room lines)
taken-IsPast above zero lines r = (omega arith, tt, r)
taken-IsPast above (suc room) [] r = (omega arith, tt, tt)
taken-IsPast above (suc room) (line ∷ lines) (a, r) =
    let (higher, past, left) = taken-IsPast line.id room lines r in
    (omega (arith, a, higher), ((omega (arith, a), higher), past), left)

page-rising :
    (id limit room : ℕ) (front back : List LogLine)
    → log_page_limit limit ≡ suc room
    → All (IsPast id) front
    → IsRising id back
    → paginate_logs id limit (front ++ back)
      ≡ (take (suc room) back, last_id 0 (take (suc room) back))
unfolding paginate_logs
page-rising id limit room front back e past r =
    let lines = lines_after-past id (suc room) front back past in
    let taken = lines_after-rising id id room back (omega arith) r in
    rw (paginate_logs, e, lines, taken) refl

some_room : (limit : ℕ) → log_page_limit limit ≡ suc (log_page_limit limit - 1)
unfolding log_page_limit
some_room limit = ground arith

follow-rising :
    (requests id limit : ℕ) (front back : List LogLine)
    → All (IsPast id) front
    → IsRising id back
    → length back ≤ requests
    → follow requests id limit (front ++ back) ≡ back
follow-rising zero id limit front [] past r h = refl
follow-rising zero id limit front (line ∷ back) past r h = absurd (omega (arith, h))
follow-rising (suc requests) id limit front [] past r h =
    rw (page-rising id limit (log_page_limit limit - 1) front [] (some_room limit) past r) refl
follow-rising (suc requests) id limit front (line ∷ back) past (a, r) h =
    let room = log_page_limit limit - 1 in
    let next = last_id line.id (take room back) in
    let (higher, taken, left) = taken-IsPast line.id room back r in
    let shorter : length (drop room back) ≤ requests = omega (arith, h, length-drop room back) in
    let seen : All (IsPast next) (front ++ (line ∷ take room back)) =
      All-append (IsPast next) front (line ∷ take room back)
        (IsPast-mono id next front (omega (arith, a, higher)) past)
        ((omega (arith, a), higher), taken) in
    let same : (front ++ (line ∷ take room back)) ++ drop room back ≡ front ++ (line ∷ back) =
      rw (append_assoc front (line ∷ take room back) (drop room back), take-append-drop room back)
        refl in
    let again =
      follow-rising requests next limit (front ++ (line ∷ take room back)) (drop room back) seen
        left shorter in
    rw (page-rising id limit room front (line ∷ back) (some_room limit) past (a, r))
      (rw (← same, again, take-append-drop room back) refl)

-- A client that follows `next_after_id` from 0 gets every line of the log once and in order, whatever
-- limit it asks for, with one request a line at most. The identifiers of the lines rise from above 0.
pub follow_complete :
    (requests limit : ℕ) (logs : List LogLine)
    → IsRising 0 logs
    → length logs ≤ requests
    → follow requests 0 limit logs ≡ logs
follow_complete requests limit logs r h = follow-rising requests 0 limit [] logs tt r h
