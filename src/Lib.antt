-- ===== src/Lib.antt =====
-- blk-switch: the storage stack of Linux as a switch between cores and queues.
--
-- The program is a change of the kernel's multi-queue block layer and of its remote storage drivers.
-- block/blk-switch.h holds the module parameters and the metrics of every core, and
-- block/blk-mq.c uses them in blk_mq_get_request: it refreshes the metrics, moves the application of
-- a request to another core (application steering), or the request to the queue of another core
-- (request steering), takes a tag, and counts the bytes of the request at its core;
-- blk_mq_end_request takes them off again.
--
-- Common        tests, lists, machine words, arrays as functions
-- Switch        block/blk-switch.h: parameters, state (Switch), bios and their class
-- Switch/Queue      blk_mq_hw_ctx, blk_mq_map_queue and the hooks by which the drivers mark a queue
-- Switch/Reset      cores_in_use (nr_cpus), refresh (the reset after 1000 ms and the statistics)
-- Switch/Metric     update_metrics: the moving averages T_metric and L_metric
-- Switch/AppTarget  find_target: the loop over the cores of a node; Correct and Spec relate it to
--                   the least load, Best is the reference search, Cores the range of the loop
-- Switch/AppSteer   take_turn (every 10 ms), steer_app (application steering as a whole)
-- Switch/ReqScan    scan: the loop that picks a queue; Keys compares cores, Correct is about the pick
-- Switch/TwoChoices two_choices: the power of two choices
-- Switch/ReqSteer   steer_request: request steering as a whole
-- Switch/Request    get_request (blk_mq_get_request), init_request (blk_mq_rq_ctx_init)
-- Switch/Complete   end_request (blk_mq_end_request), free_request (blk_mq_free_request)
-- Switch/Tests      runs and instances
-- HwQueue       block/blk-mq.c: Busy is about blk_mq_update_dispatch_busy, NextCpu about
--               blk_mq_hctx_next_cpu; the record Cpus holds the kernel's sets of cores
-- Lifecycle     block/blk-mq.c: start_request (blk_mq_start_request), requeue_request, complete_request
--               (__blk_mq_complete_request), req_expired, rq_timed_out; Correct relates them
-- Lifecycle/Expire  check_expired (blk_mq_check_expired), timeout_work; Step is about one check, Scan
--                   about the timer behind the scan
-- Blk           block/blk-mq.c: a hardware queue as its dispatch keeps it (Hctx), the tags and budgets
--               that it takes and puts, and the trace of what it does; Trace reads the trace
-- Blk/Rounds        dispatch_rq_list (blk_mq_dispatch_rq_list): Order is about the order of the requests,
--                   Told about the end of a batch, Tags about tags of the driver; Loop has the induction
--                   over the rounds, Touch the requests that a step touches
-- Blk/Direct        try_issue (__blk_mq_try_issue_directly) and its callers; Count counts requests
-- Blk/Plug          add_rq_to_plug, flush_plug_list (blk_mq_flush_plug_list); Batches is about its calls
-- Blk/Requeue       requeue_to_list (blk_mq_requeue_request), requeue_work; Order is about one run of the
--                   work, Again about requests that are requeued and come back
-- Blk/Submit        make_request (blk_mq_make_request): Once counts the places of a request, Plugged is
--                   about the plug
-- Blk/Tests         runs and instances
-- Tcp           drivers/nvme/host/tcp.c: the receive state of a queue and of its requests
-- Tcp/Dispatch      the handlers of a complete PDU: verify_hdgst, check_ddgst, handle_c2h_data,
--                   handle_comp, handle_r2t; H2c is about the data PDU that answers an R2T
-- Tcp/Recv          recv_skb (nvme_tcp_recv_skb) with recv_pdu, recv_data and recv_ddgst; Bytewise is
--                   the same one byte at a time, Phases and Loop compare the two, Room is about the
--                   space of a request, Transfer about a whole data PDU
-- Tcp/Doorbell      queue_request (nvme_tcp_queue_request), doorbell_timeout; Awake is about the waits
-- Tcp/Send          the queue's send state and its caravan; Parts has the four functions that send a
--                   part of a request, Try try_send (nvme_tcp_try_send), Work io_work
--                   (nvme_tcp_io_work, nvme_tcp_io_work_lat); Bounds is about the caravan's arrays,
--                   Loads, Stream and Refine about the byte stream, Total about the loop, Faults
--                   about errors of the socket and digests
-- Tcp/Tests         PDUs in the layout of linux/nvme-tcp.h
-- Target        drivers/nvme/target/tcp.c: a queue of the nvme-tcp target and its commands
-- Target/Respond    the PDUs of a command, queue_response, process_resp_list and fetch_cmd; Order is
--                   about the order of the responses
-- Target/Send       the functions that send a part of a command; Batch has try_send_one and try_send
--                   (nvmet_tcp_try_send), Within and Bounds are about the caravan's arrays, Faults about
--                   its data, Total and Returns about the loops
-- Target/Recv       map_pdu_iovec, map_data, handle_h2c_data_pdu; Iovec is about the data that a PDU
--                   can have, and the host's answer to an R2T; Work has done_recv_pdu, try_recv_one
--                   and try_recv (nvmet_tcp_try_recv), Complete is about the data of a write, Faults
--                   about a connection request
-- Target/Steer      data_ready (nvmet_tcp_data_ready): Least is about the loop over the cores, Correct
--                   about the core that is taken
-- Target/Tests      runs and instances
--
-- A bio gets its request from blk_mq_get_request; make_request then puts it into the plug, gives it to
-- the scheduler, or to the driver, which may refuse it: then it waits on the list of its hardware queue,
-- which dispatch_rq_list gives to the driver again, or on the requeue list.
-- The driver hands the requests that the block layer has steered to the socket of their queue, and
-- ends them when nvme_tcp_recv_skb has their data or their completion. Its end of a request is an
-- event of the model of the queue (completed), which blk_mq_end_request answers in the other part.
--
-- Arrays over the cores are functions of the core. Unsigned arithmetic has its wrap written out; an
-- int that may be negative is a bit pattern (sample) or an integer (two_nr). A target of -1 is
-- `none`. The threshold is doubled without a wrap. What the kernel does outside the repository is a
-- parameter: the record Kernel holds the clock's and the priorities' functions, and the record Call
-- what the surroundings answer during one call: jiffies at each read, the core of the task, the
-- random bytes, and the tag allocator, which may leave a request at another place.
-- The loop that draws a second core takes fuel, one unit a byte. It ends at the first byte that
-- stands for another core, so any fuel that reaches such a byte is enough; which bytes come is the
-- environment's choice.
-- The record Wire holds the sizes and the layout of the PDUs, which are in a header of the kernel, and
-- the digest. A list of bytes stands for the part of a buffer or of a PDU that was received.
-- nvme_tcp_recv_skb takes fuel, two units a byte: data of length 0 costs a round without a byte.
-- The record Socket holds what a socket answers to each call; the bytes that are sent are chunks, a
-- part of a request with a start and a length. nvme_tcp_try_send takes fuel for the rounds of
-- nvme_tcp_try_send_data: each sends a byte of the PDU at least, so more fuel than it has is enough.
-- The record Link is the same for the target, with pieces of commands, and the record Peer holds the
-- PDUs that a target receives, its memory, and nvmet_req_init. Fuel stands for the rounds of
-- nvmet_try_send_data, where more fuel than the scatterlist has bytes is enough, and for the calls
-- of the socket in nvmet_tcp_try_recv, where more fuel than bytes are missing is enough for data.
-- Host and target meet in their PDUs: the host's answer to an R2T of the target is a PDU that the
-- target receives.
-- In Blk a request is a number, and the record Driver answers each question of the dispatch (a tag, a
-- budget, a request for the driver) by the number of the call. The scheduler's list, list_sort, the
-- merges of a bio and blk_flush_plug_list are parameters or effects in the trace, and so is which
-- requests are on a list of another part when one is requeued. Between two steps of a function no
-- other thread acts.
-- Not modelled: printk, the elevator's hooks, statistics of the block layer, and a
-- failure of the allocation of a CPU mask; the flags of messages and the maps of pages, which change
-- no state; the set-up of requests and connections, and the work loops of the target; the rest of
-- blk-mq.c, the other drivers and targets under drivers/nvme, and the copies of other projects under
-- osdi21_artifact.
pub mod Common
pub mod Switch
pub mod Tcp
pub mod Target
pub mod Blk
pub mod HwQueue
pub mod Lifecycle
