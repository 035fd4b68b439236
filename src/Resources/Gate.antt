-- ===== src/Resources/Gate.antt =====
-- `acquire_llm` with a total budget (resource_gate.py), for any number of callers: each first takes a
-- slot of `llm_total`, then waits for one of its own pool while it holds the first. The gate counts the
-- leases, of which Slots has the files; here is in which order the callers enter and leave.
use chatbot_win.Prelude.{ℕ, ◌+◌, ◌-◌, ◌<◌, ◌≡◌, some}
use chatbot_win.Resources.Slots.{effective_llm_max_parallel}
use chatbot_win.Resources.Split.{interactive, background, conversation_parallelism}

pub record Limits : Type 0 where
  pub total : ℕ
  pub interactive_max : ℕ
  pub background_max : ℕ

-- The limits that a client passes to `acquire_llm` from a schedule of either kind (llm/openai_client.py).
unfoldable pub limits_of : (ℕ → ℕ) → ℕ → Limits
limits_of scaled budget = record {
  total = effective_llm_max_parallel (some budget);
  interactive_max =
      effective_llm_max_parallel
        (some ((conversation_parallelism scaled interactive budget).max_parallel_conversations));
  background_max =
      effective_llm_max_parallel
        (some ((conversation_parallelism scaled background budget).max_parallel_conversations));
}

-- How many callers hold a slot of the total and wait for their pool, and how many hold both.
pub record Gate : Type 0 where
  pub waiting_interactive : ℕ
  pub waiting_background : ℕ
  pub running_interactive : ℕ
  pub running_background : ℕ

abbrev pub open_gate : Gate
open_gate = record {
  waiting_interactive = 0;
  waiting_background = 0;
  running_interactive = 0;
  running_background = 0;
}

-- The slots of `llm_total` that are taken.
abbrev pub taken : Gate → ℕ
taken g =
    g.waiting_interactive + g.waiting_background + g.running_interactive + g.running_background

pub data Step (l : Limits) (g : Gate) (h : Gate) : Type 0 where
  -- a caller takes a slot of the total
  enter_interactive :
      taken g < l.total
      → h ≡ record g { waiting_interactive = g.waiting_interactive + 1 }
      → Step l g h
  enter_background :
      taken g < l.total
      → h ≡ record g { waiting_background = g.waiting_background + 1 }
      → Step l g h
  -- and then one of its pool
  start_interactive :
      0 < g.waiting_interactive
      → g.running_interactive < l.interactive_max
      → h ≡ record g {
        waiting_interactive = g.waiting_interactive - 1;
        running_interactive = g.running_interactive + 1;
      }
      → Step l g h
  start_background :
      0 < g.waiting_background
      → g.running_background < l.background_max
      → h ≡ record g {
        waiting_background = g.waiting_background - 1;
        running_background = g.running_background + 1;
      }
      → Step l g h
  -- the wait for the pool times out, which gives the slot of the total back
  time_out_interactive :
      0 < g.waiting_interactive
      → h ≡ record g { waiting_interactive = g.waiting_interactive - 1 }
      → Step l g h
  time_out_background :
      0 < g.waiting_background
      → h ≡ record g { waiting_background = g.waiting_background - 1 }
      → Step l g h
  -- the call is over
  leave_interactive :
      0 < g.running_interactive
      → h ≡ record g { running_interactive = g.running_interactive - 1 }
      → Step l g h
  leave_background :
      0 < g.running_background
      → h ≡ record g { running_background = g.running_background - 1 }
      → Step l g h

pub data Reach (l : Limits) : Gate → Type 0 where
  here : Reach l open_gate
  next : {g h : Gate} → Reach l g → Step l g h → Reach l h
