-- ===== src/Tools/Control/Assigned.antt =====
-- src/tools/control.ts: what `assign_channel` and `unassign_channel` answer.
use mathlib.Core.List.{append-nil}
use mathlib.Core.Path.{subst}
use ccu_mcp.Prelude.{
  String, false, ◌≡◌, refl, sym, ap, Option, none, some, List, [], ◌∷◌, ◌++◌, ◌===◌, arith, eq_iff,
  Bool-cases, inl, inr, if◌then◌else◌,
}
use ccu_mcp.Action.{Outcome, ok, thrown, pure, throw, settle}
use ccu_mcp.Action.Ends.{IfOk, bind-IfOk, IfOk-ok}
use ccu_mcp.Ccu.Targets.{Naming, Target}
use ccu_mcp.Tools.Values.{Item, find_name}
use ccu_mcp.Tools.Target.{ToolState, Services, gate, fetch_items}
use ccu_mcp.Tools.Control.AssignChannel.{
  Mode, Kind, room, function, Applied, AssignArgs, by_mode, check_given, find_channel_id,
  known_group, modify_group, room_step, function_step, maybe_room, maybe_function, with_note,
  assign_channel,
}

find_name-finds :
    (name : String) (l : List Item) (i : Item) → find_name name l ≡ some i → i.item_name ≡ name
find_name-finds name [] i h = ground arith
find_name-finds name (x ∷ l) i h = ground (arith, eq_iff x.item_name name, find_name-finds name l i)

abbrev pub group : Kind → String → Applied
group kind name = record { kind = kind; applied_name = name }

-- The group that is asked for, if one is.
abbrev pub asked : Kind → Option String → List Applied
asked kind none = []
asked kind (some name) = if name === "" then [] else group kind name ∷ []

module _ {W N : Type 0} (v : Services W N) (n : Naming) (t : Target) where
  known-name :
      (noun plural name : String) (l : List Item) (o : Option Item) (s : ToolState W N) (i : Item)
      → ((j : Item) → o ≡ some j → j.item_name ≡ name)
      → (known_group v n t noun plural name l o s).0 ≡ ok i
      → i.item_name ≡ name
  known-name noun plural name l none s i h e = ground (arith, e)
  known-name noun plural name l (some j) s i h e = ground (arith, e, h j refl)

  room-Applied :
      (mode : Mode) (channel name : String) (s : ToolState W N)
      → IfOk
          (λ l s'. l ≡ group room name ∷ [])
          (room_step v n t mode channel name s).0
          (room_step v n t mode channel name s).1
  room-Applied mode channel name s =
      let P : List Applied → ToolState W N → Type 0 = λ l s'. l ≡ group room name ∷ [] in
      let listed = (fetch_items v "Room.getAll" s).1 in
      bind-IfOk P (fetch_items v "Room.getAll") _ s λ rooms f.
        bind-IfOk P (known_group v n t "Room" "rooms" name rooms (find_name name rooms)) _ listed
          λ r k.
            bind-IfOk P
              (modify_group v n t (by_mode mode "Room.addChannel" "Room.removeChannel")
                "Room.modifyChannel" r.item_id channel)
              (λ _. pure (group room r.item_name ∷ []))
              (known_group v n t "Room" "rooms" name rooms (find_name name rooms) listed).1
              λ reply m.
                ap (λ x. group room x ∷ [])
                  (known-name "Room" "rooms" name rooms (find_name name rooms) listed r
                    (find_name-finds name rooms) k)

  function-Applied :
      (mode : Mode) (channel name : String) (applied : List Applied) (s : ToolState W N)
      → IfOk
          (λ l s'. l ≡ applied ++ group function name ∷ [])
          (function_step v n t mode channel name applied s).0
          (function_step v n t mode channel name applied s).1
  function-Applied mode channel name applied s =
      let P : List Applied → ToolState W N → Type 0 =
        λ l s'. l ≡ applied ++ group function name ∷ [] in
      let listed = (fetch_items v "Subsection.getAll" s).1 in
      bind-IfOk P (fetch_items v "Subsection.getAll") _ s λ functions f.
        let known =
          known_group v n t "Function" "functions" name functions (find_name name functions) in
        bind-IfOk P known _ listed λ g k.
          bind-IfOk P
            (modify_group v n t (by_mode mode "Subsection.addChannel" "Subsection.removeChannel")
              "Subsection.modifyChannel" g.item_id channel)
            (λ _. pure (applied ++ group function g.item_name ∷ [])) (known listed).1
            λ reply m.
              ap (λ x. applied ++ group function x ∷ [])
                (known-name "Function" "functions" name functions (find_name name functions) listed
                  g (find_name-finds name functions) k)

  maybe_room-Applied :
      (mode : Mode) (channel : String) (o : Option String) (s : ToolState W N)
      → IfOk
          (λ l s'. l ≡ asked room o)
          (maybe_room v n t mode channel o s).0
          (maybe_room v n t mode channel o s).1
  maybe_room-Applied mode channel none s = refl
  maybe_room-Applied mode channel (some name) s = elim (Bool-cases (name === "")) [
    | inl y ↦ rw y refl
    | inr y ↦ rw y (room-Applied mode channel name s)
  ]

  try-Applied :
      (mode : Mode) (applied : List Applied) (P : List Applied → ToolState W N → Type 0)
      (o : Outcome (List Applied)) (s : ToolState W N)
      → IfOk P o s
      → IfOk P
          (settle o pure (λ e. throw (with_note mode applied e)) s).0
          (settle o pure (λ e. throw (with_note mode applied e)) s).1
  try-Applied mode applied P (ok l) s h = h
  try-Applied mode applied P (thrown e) s h = tt

  maybe_function-Applied :
      (mode : Mode) (channel : String) (o : Option String) (applied : List Applied)
      (s : ToolState W N)
      → IfOk
          (λ l s'. l ≡ applied ++ asked function o)
          (maybe_function v n t mode channel o applied s).0
          (maybe_function v n t mode channel o applied s).1
  maybe_function-Applied mode channel none applied s = sym (append-nil applied)
  maybe_function-Applied mode channel (some name) applied s = elim (Bool-cases (name === "")) [
    | inl y ↦ rw y (sym (append-nil applied))
    | inr y ↦ rw y (
        let m = function_step v n t mode channel name applied s in
        try-Applied mode applied (λ l s'. l ≡ applied ++ group function name ∷ []) m.0 m.1
          (function-Applied mode channel name applied s))
  ]

  assign_channel-IfOk :
      (mode : Mode) (args : AssignArgs) (s : ToolState W N)
      → IfOk
          (λ l s'. l ≡ asked room args.to_room ++ asked function args.to_function)
          (assign_channel v n t mode args s).0
          (assign_channel v n t mode args s).1
  unfolding assign_channel
  assign_channel-IfOk mode args s =
      let P : List Applied → ToolState W N → Type 0 =
        λ l s'. l ≡ asked room args.to_room ++ asked function args.to_function in
      let gated = (gate v n t args.confirm false s).1 in
      let given = (check_given v n t args gated).1 in
      let found = (find_channel_id v n t args.channel given).1 in
      bind-IfOk P (gate v n t args.confirm false) _ s λ u g.
        bind-IfOk P (check_given v n t args) _ gated λ w c.
          bind-IfOk P (find_channel_id v n t args.channel) _ given λ channel f.
            bind-IfOk P (maybe_room v n t mode channel args.to_room) _ found λ applied r.
              let rooms = maybe_room v n t mode channel args.to_room found in
              let is : applied ≡ asked room args.to_room =
                IfOk-ok (λ l s'. l ≡ asked room args.to_room) rooms.0 rooms.1
                  (maybe_room-Applied mode channel args.to_room found) applied r in
              subst
                (λ a.
                  IfOk (λ l s'. l ≡ a ++ asked function args.to_function)
                    (maybe_function v n t mode channel args.to_function applied rooms.1).0
                    (maybe_function v n t mode channel args.to_function applied rooms.1).1)
                is (maybe_function-Applied mode channel args.to_function applied rooms.1)

  -- When `assign_channel` or `unassign_channel` succeeds, it answers the room and the function that it was
  -- asked for, in this order, by the names of the arguments, and nothing else.
  pub assign_channel-applied :
      (mode : Mode) (args : AssignArgs) (s : ToolState W N) (l : List Applied)
      → (assign_channel v n t mode args s).0 ≡ ok l
      → l ≡ asked room args.to_room ++ asked function args.to_function
  assign_channel-applied mode args s l e =
      IfOk-ok (λ l s'. l ≡ asked room args.to_room ++ asked function args.to_function)
        (assign_channel v n t mode args s).0 (assign_channel v n t mode args s).1
        (assign_channel-IfOk mode args s) l e
