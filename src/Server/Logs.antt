-- ===== src/Server/Logs.antt =====
-- internal/server/server.go, `paginateLogs`: a part of a job's log. The two numbers of the query are what
-- Go reads of them, 0 where that fails; one below zero is 0, which the code treats alike.
use cartolensia.Prelude.{ℕ, ◌-◌, Bool, ◌&&◌, ◌||◌, List, [], ◌∷◌, eqb, ltb, leb, if◌then◌else◌}
use cartolensia.Jobs.{LogLine}

unfoldable pub log_page_limit : ℕ → ℕ
log_page_limit limit = if eqb limit 0 || ltb 500 limit then 200 else limit

abbrev pub is_seen : ℕ → LogLine → Bool
is_seen after_id line = ltb 0 after_id && ltb 0 line.id && leb line.id after_id

-- The loop over the lines, with the number of lines that there is still room for.
unfoldable pub lines_after : ℕ → ℕ → List LogLine → List LogLine
lines_after after_id room [] = []
lines_after after_id room (line ∷ lines) =
    let skipped = lines_after after_id room lines in
    let taken = lines_after after_id (room - 1) lines in
    if is_seen after_id line then skipped else line ∷ (if leb room 1 then [] else taken)

abbrev pub last_id : ℕ → List LogLine → ℕ
last_id id [] = id
last_id id (line ∷ lines) = last_id line.id lines

unfoldable pub paginate_logs : ℕ → ℕ → List LogLine → List LogLine × ℕ
unfolding log_page_limit lines_after
paginate_logs after_id limit logs =
    let out = lines_after after_id (log_page_limit limit) logs in (out, last_id 0 out)
