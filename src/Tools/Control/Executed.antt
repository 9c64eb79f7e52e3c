-- ===== src/Tools/Control/Executed.antt =====
-- src/tools/control.ts: `execute_program` executes a listed program, and once.
use ccu_mcp.Prelude.{
  ◌+◌, String, Bool, false, ◌≡◌, refl, Option, none, some, List, [], ◌∷◌, ◌<>◌, arith, eq_iff, ◌∙◌,
  ◌⊎◌, Among,
}
use ccu_mcp.Errors.{Failure}
use ccu_mcp.Action.{Outcome, ok, thrown, ◌>>=◌, ◌>>◌}
use ccu_mcp.Ccu.Targets.{Naming, Target}
use ccu_mcp.Tools.Values.{Item, with_text}
use ccu_mcp.Tools.Target.{ToolState, Services, Tool, request, acquire, gate, fetch_items, missing}
use ccu_mcp.Tools.Steps.{count, Quiet, quiet_stay, quiet_chain, quiet-Steps, fetch_items-Keeps}
use ccu_mcp.Tools.Control.Once.{gate-Calm}
use ccu_mcp.Tools.Control.Program.{find_id, known_program, check_executed, execute_program}

pub find_id-finds :
    (id : String) (l : List Item) (p : Item) → find_id id l ≡ some p → p.item_id ≡ id
find_id-finds id [] p h = ground arith
find_id-finds id (x ∷ l) p h = ground (arith, eq_iff x.item_id id, find_id-finds id l p)

module _ {W N : Type 0} (v : Services W N) (n : Naming) (t : Target) where
  abbrev execute : String
  execute = "Program.execute"

  -- The list of programs that the tool is answered, once the gate has let it pass.
  abbrev pub programs : Option Bool → ToolState W N → Outcome (List Item)
  programs confirm s = (fetch_items v "Program.getAll" (gate v n t confirm false s).1).0

  -- Nothing was executed, and the tool throws.
  abbrev pub Refuses : ToolState W N → Outcome Item → ToolState W N → Type 0
  Refuses s o s' = (count execute s'.sent ≡ count execute s.sent) × (e : Failure) × (o ≡ thrown e)

  -- The program was executed once, and is answered unless the tool throws.
  abbrev pub Runs : Item → ToolState W N → Outcome Item → ToolState W N → Type 0
  Runs p s o s' =
      (count execute s'.sent ≡ count execute s.sent + 1)
      × ((o ≡ ok p) ⊎ ((e : Failure) × (o ≡ thrown e)))

  -- The program of that id in the list.
  abbrev pub IsListed : String → List Item → Item → Type 0
  IsListed id l p = Among p l × (p.item_id ≡ id)

  abbrev Executes : String → List Item → ToolState W N → Outcome Item → ToolState W N → Type 0
  Executes id l s o s' = Refuses s o s' ⊎ ((p : Item) × IsListed id l p × Runs p s o s')

  abbrev sends : String → Item → Tool v Item
  sends id p = request v execute (with_text "id" id ∷ []) >>= check_executed v n t id p

  abbrev Outcomes :
      String → Outcome (List Item) → ToolState W N → Outcome Item → ToolState W N → Type 0
  Outcomes id listing s o s' =
      Refuses s o s'
      ⊎ ((l : List Item) × (p : Item) × (listing ≡ ok l) × IsListed id l p × Runs p s o s')

  found : String → List Item → Tool v Item
  found id l = known_program v n t id (find_id id l) >>= λ p. acquire v >> sends id p

  -- For an id that the list of programs does not have, `execute_program` throws that the program is not
  -- found, and sends no `Program.execute`.
  pub execute_program_unknown :
      (id : String) (confirm : Option Bool) (s : ToolState W N) (l : List Item)
      → (gate v n t confirm false s).0 ≡ ok tt
      → (fetch_items v "Program.getAll" (gate v n t confirm false s).1).0 ≡ ok l
      → find_id id l ≡ none
      → ((execute_program v n t id confirm s).0
          ≡ thrown (
              missing
                ("Program not found: " <> id)
                "Call list_programs to see available programs and their IDs."))
        × (count execute (execute_program v n t id confirm s).1.sent ≡ count execute s.sent)
  unfolding execute_program
  execute_program_unknown id confirm s l g f none_found =
      let gated = (gate v n t confirm false s).1 in
      let fetched =
        fetch_items-Keeps v (Quiet v execute) (quiet_stay v execute) (quiet_chain v execute)
          (quiet-Steps v execute) "Program.getAll" refl gated in
      let calm = gate-Calm v execute n t confirm false s in
      rw g (rw f (rw none_found (refl, fetched ∙ calm)))
