-- ===== src/SubServer/Slots/Tests.antt =====
-- A server of two slots.
use obhod.Prelude.{◌≡◌, refl, true, false, [], ◌∷◌}
use obhod.SubServer.Slots.{Server, busy, served, process_request, Run, opened, arrives}
use obhod.SubServer.Slots.Balance.{all_done, all_done-served}

abbrev fresh_server : Server
fresh_server = record { slots = 2; serving = [] }

abbrev full_server : Server
full_server = record { slots = 0; serving = 8 ∷ 7 ∷ [] }

full_run : Run 2 0 full_server
unfolding process_request
full_run =
    arrives true 8 0 (record { slots = 1; serving = 7 ∷ [] }) (arrives true 7 0 fresh_server opened)

lost_run : Run 2 2 (record { slots = 0; serving = [] })
unfolding process_request
lost_run =
    arrives false 8 1 (record { slots = 1; serving = [] }) (arrives false 7 0 fresh_server opened)

-- A server that has lost its slots turns everything away.
lost_example : (process_request true 9 (record { slots = 0; serving = [] })).1 ≡ busy
unfolding process_request
lost_example = refl

all_done-served_example :
    Run 2 0 (all_done full_server.serving full_server)
    × ((process_request true 9 (all_done full_server.serving full_server)).1 ≡ served)
all_done-served_example = all_done-served 9 full_run
