-- ===== src/Campaign/Commands.antt =====
-- standalone.py: `main`, once `argparse` has read the command line. What a command has printed is left
-- out where it only names the files that it wrote.
pub mod Kept
use warden_drydock.Prelude.{
  ℕ, zero, suc, String, Bool, true, false, List, [], ◌∷◌, Option, none, some, if◌then◌else◌,
}
use warden_drydock.Prelude.Result.{Result, ok, err, ◌>>=◌}
use warden_drydock.Campaign.Text.{is_empty}
use warden_drydock.Campaign.Json.{Json}
use warden_drydock.Campaign.Graph.{Entity}
use warden_drydock.Campaign.Rules.{Root, graph_or_exit}
use warden_drydock.Campaign.Related.{
  Failure, or_refused, related_entities, ℤ, pos, negsuc, negative_depth, no_records,
}
use warden_drydock.Campaign.Indexes.{build_indexes}
use warden_drydock.Campaign.Context.{build_context}
use warden_drydock.Campaign.Create.{create_entity}
use warden_drydock.Campaign.Listing.{
  find_entities, show_entity, print_related, print_backlinks, print_history, audit_connections,
}

-- Every command but `validate`, which has modules of its own.
pub data Command : Type 0 where
  context : String → ℤ → ℤ → Command
  index : Command
  find show backlinks history : String → Command
  related : String → ℤ → Command
  connections : Command
  new : String → String → Option String → Command

-- `_nonnegative_int`, after `int`
unfoldable pub nonnegative_int : ℤ → Result Failure ℕ
nonnegative_int (pos n) = ok n
nonnegative_int (negsuc n) = err negative_depth

-- `_positive_int`, after `int`
unfoldable pub positive_int : ℤ → Result Failure ℕ
positive_int (pos zero) = err no_records
positive_int (pos (suc n)) = ok (suc n)
positive_int (negsuc n) = err no_records

-- What a command that only reads has printed, with the root as it was.
unfoldable pub reading : Root → Result Failure (List String) → Result Failure (List String × Root)
reading root printed = printed >>= λ lines. ok (lines, root)

-- `casefold`, `title`, `str`, `loads`, `dumps` and `format_id` are Python's; `resolve` and `occupied` are
-- the file system's.
module _ (casefold title : String → String) (str : Json → String) (loads : String → Option Json)
    (resolve : String → Option (List String)) (occupied : List String → Bool)
    (format_id : String → String → Option String) (dumps : String → String) where
  -- The check that `context` does before it writes anything.
  unfoldable pub checked : Root → String → ℕ → Result Failure (List Entity)
  unfolding related_entities graph_or_exit or_refused
  checked root focus depth =
      if is_empty focus
      then (or_refused (graph_or_exit casefold loads root) >>= λ g. ok [])
      else related_entities casefold loads root focus (pos depth)

  unfoldable pub run_context : Root → String → ℤ → ℤ → Result Failure (List String × Root)
  unfolding nonnegative_int positive_int checked build_indexes build_context
  run_context root focus depth max_records = do
    n ← nonnegative_int depth
    m ← positive_int max_records
    es ← checked root focus n
    indexed ← build_indexes casefold title loads root
    done ← build_context casefold title loads indexed focus (pos n) (pos m)
    ok ([], done)

  unfoldable pub run : Command → Root → Result Failure (List String × Root)
  unfolding run_context build_indexes find_entities show_entity print_related print_backlinks
      print_history audit_connections create_entity nonnegative_int reading
  run (context focus depth max_records) root = run_context root focus depth max_records
  run index root = build_indexes casefold title loads root >>= λ r. ok ([], r)
  run (find query) root = reading root (find_entities casefold loads root query)
  run (show id) root = reading root (show_entity loads root id)
  run (related focus depth) root =
      nonnegative_int depth >>= λ n. reading root (print_related casefold loads root focus (pos n))
  run (backlinks focus) root = reading root (print_backlinks casefold loads root focus)
  run (history focus) root = reading root (print_history casefold loads root focus)
  run connections root = reading root (audit_connections str loads root)
  run (new kind id name) root =
      create_entity loads resolve occupied format_id dumps root kind id name >>= λ made.
      ok ([], made.1)
