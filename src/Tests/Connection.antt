-- ===== src/Tests/Connection.antt =====
-- Concrete runs of src/fcgi-connection.cpp.
use wasapi.Base.{◌≡◌, inl, arith, refl, true, false, none, some, [], ◌∷◌, ◌++◌, ◌*◌, codes}
use wasapi.Request.{new_request}
use wasapi.Memory.{fresh_arenas, create_arenas}
use wasapi.Memory.Pool.{IsValid, free_count}
use wasapi.Connection.{Connection, Loop, new_connection, find_conn, erase_conn}
use wasapi.Connection.Output.{sent, blocks, flush_connection}
use wasapi.Connection.Output.Sent.{unsent, total, flush_connection-total}
use wasapi.Connection.Requests.{Settings, close_connection}
use wasapi.Connection.Arenas.Freed.{freed, close_connection-freed}
use wasapi.Connection.Events.{handle_io}
use wasapi.Connection.Events.Closing.{
  idle, gone, handle_io_closes_twice, arrived, handle_io_closes_early,
}

abbrev pub settings : Settings
settings = record {
  limits = record { max_params_bytes = 100; max_stdin_bytes = 100 };
  fcgi_path_prefix = [];
  max_request_time = 30;
  keep_uploaded_files = false;
  cleanup_temp_on_disconnect = true;
  address = λ p. 4096 * p;
  request_size = 512;
  request_align = 8;
  double_of = λ n. n;
  now = 0;
  sends = λ fd. [];
}

abbrev pub loop_with : Connection → Loop
loop_with c = record {
  conns = (5, c) ∷ [];
  manager = create_arenas 1 1024;
  close_queue = [];
  waiting_conns = [];
  queued = [];
  pending_output = [];
  accept_paused = false;
  closings = [];
  unlinks = [];
  wire = [];
}

there :
    find_conn 5 (loop_with (idle false false false false)).conns
    ≡ some (idle false false false false)
unfolding find_conn
there = refl

alone : find_conn 5 (erase_conn 5 (loop_with (idle false false false false)).conns) ≡ none
unfolding find_conn erase_conn
alone = refl

handle_io_closes_twice_example :
    (handle_io settings 5 (gone settings) (loop_with (idle false false false false))).closings
    ≡ 5 ∷ 5 ∷ []
handle_io_closes_twice_example =
    handle_io_closes_twice settings 5 false false false (loop_with (idle false false false false))
      there alone refl

-- Three bytes of a header arrive.
handle_io_closes_early_example :
    (handle_io settings 5 (arrived settings (1 ∷ 1 ∷ 0 ∷ [])) (loop_with new_connection)).closings
    ≡ 5 ∷ 5 ∷ []
handle_io_closes_early_example =
    handle_io_closes_early settings 5 (1 ∷ 1 ∷ 0 ∷ []) false false (loop_with new_connection) there
      (inl (omega arith)) alone refl

-- A connection with two requests, which have the arenas 2 and 0 of three.
abbrev busy : Connection
busy = record new_connection { requests = (1, new_request 2 0 0) ∷ (4, new_request 0 0 0) ∷ [] }

abbrev lent : Loop
lent = record (loop_with busy) {
  manager = record (create_arenas 3 1024) { in_use = true ∷ true ∷ true ∷ []; available_count = 0 };
}

lent-IsValid : IsValid lent.manager
unfolding create_arenas fresh_arenas free_count
lent-IsValid = record { same_length = refl; counted = refl; flagged = (refl, (refl, (refl, tt))) }

busy_there : find_conn 5 lent.conns ≡ some busy
unfolding find_conn
busy_there = refl

close_connection-freed_example :
    ((close_connection settings 5 lent).manager.in_use ≡ false ∷ true ∷ false ∷ [])
    × ((close_connection settings 5 lent).manager.available_count ≡ 2)
    × ((close_connection settings 5 lent).conns ≡ [])
    × ((close_connection settings 5 lent).closings ≡ 5 ∷ [])
unfolding freed free_count new_request erase_conn
close_connection-freed_example =
    close_connection-freed settings 5 busy lent lent-IsValid busy_there refl

abbrev pub full : Connection
full = record new_connection { out_buf = codes "hello" }

-- Two bytes go, then the socket would block.
partly_sent : (flush_connection (sent 2 ∷ blocks ∷ []) full []).wire ≡ codes "he"
unfolding flush_connection
partly_sent = refl

flush_connection-total_example :
    total (flush_connection (sent 2 ∷ blocks ∷ []) full (codes "x")) ≡ codes "x" ++ unsent full
flush_connection-total_example = flush_connection-total (sent 2 ∷ blocks ∷ []) full (codes "x")
