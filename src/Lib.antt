-- ===== src/Lib.antt =====
-- prettymux is a terminal multiplexer for GTK 4 in C; its code is in src/gtk. The library models the
-- parts that decide something: where focus goes, which workspaces, columns and panes there are, where
-- the camera of a strip stands, which notifications and status entries there are, how a strip is saved
-- and restored, how instances and their sockets are named, what the commands of agents ask for, and what
-- the sidebar says. A part is a module, and the name of a definition is that of the
-- function it translates, without the prefix of its C file.
--
--   Hover          src/gtk/hover_focus.c. The three static flags are the record Hover.
--   Strip          src/gtk/workspace_strip.c, src/gtk/workspace_strip.h, and workspace_focus_pane and
--                  workspace_set_active_pane of src/gtk/workspace.c. WorkspaceColumn is Column,
--                  WorkspaceStripState is Strip, and a Workspace of the module holds what these
--                  functions use of one. Column, Camera, Focus, Columns, Panes and Tick hold the
--                  operations; Invariant proves for each of them that it keeps a sound state, Reach
--                  puts them together; Behaviour says what they do.
--   Layout         src/gtk/workspace_layout.c, with workspace_strip_focus_primary of
--                  src/gtk/workspace_strip.c and workspace_focus_first_terminal of
--                  src/gtk/workspace.c. The record LayoutState holds the further fields of a
--                  Workspace, and Child what its overlay shows. Panes, Kept and Shown have the lemmas of
--                  the stages of the rebuilding, Rebuild puts them together.
--   Session        src/gtk/session.c: the strip of a workspace in the session file. Save writes the
--                  members, Lookup finds panes by their names, Build makes the columns, Read and Restore
--                  bring back their members and the focus; Ids, Seen, Saved, Built, Index, Reread,
--                  Refocus, View and Stages have the lemmas of the stages, RoundTrip puts them together.
--   Json           the values of json-glib and its accessors.
--   Registry       src/gtk/workspace.c: the array `workspaces`, `current_workspace` and
--                  `next_workspace_serial`. Members holds adding, removing, switching, detaching,
--                  attaching and the restoring of a serial number, Import
--                  workspace_import_from_payload, Registry the rest. The notebooks that the restoring of an
--                  imported workspace gives are an argument, in the record Import.
--   Notifications  src/gtk/notifications.c: the static list and the toast.
--   Status         src/gtk/workspace.c: the functions on workspace_status_entry.
--   Instance       src/gtk/app_state.c: names of instances and of sockets.
--   Agent          src/gtk/prettymux_agent_cli.c: Agent has the choice of an instance
--                  (find_socket_path), Tmux the state file and the targets, Args, Commands and Panes
--                  the tmux commands and run_tmux_compat, Texts the texts of formats, keys and options. A Server
--                  answers a request by the exchanges of before; a World is the state file and the
--                  exchanges.
--   Routing        src/gtk/terminal_routing.c: the search for a terminal.
--   Sidebar        src/gtk/sidebar_data.c and src/gtk/sidebar_sections.c: the texts of the sidebar.
--   Wire           write_all_bytes of src/gtk/socket_server.c, json_escape of src/gtk/prettymux-open.c and
--                  prettymux_trim_last_lines of src/gtk/socket_commands.c.
--   Prelude        helpers: tests, lists over native numbers, signed integers, texts.
--
-- How they interact: workspace_remove and workspace_detach_from_instance call
-- notifications_on_workspace_removed, so the record Registry holds the notifications. Layout and Session
-- use the operations of Strip on a Workspace of Strip, Import those of Registry, Agent the names and the
-- sockets of Instance and the text order of Status. The other parts share no state.
--
-- State and effects. A function that changes static variables or a struct takes the record and returns
-- it. A call that shows something (a size request, a row of the list box, the bell) is put on a list of
-- calls, in the order of the code. What the code asks GTK, the environment or a socket is an argument: a
-- record of operations (Gtk, Ui, Surroundings) or a function; the sorting of GLib is a function with the
-- laws of IsSort, which Status.Insertion shows for one. A widget, a notebook or a workspace is
-- known by its address, a number, with 0 for NULL. A GPtrArray is a List, a GHashTable a list of pairs
-- whose order means nothing, a C string the list of its bytes, a buffer of n bytes keeps n - 1 of them.
--
-- Numbers. An int and a gint64 are the integers of Prelude.Int: they count widgets and microseconds and
-- stay far from their bounds. The serial numbers, a guint64, wrap at 2 ^ 64. The double values of the
-- strip are an interface, Double, of which the theorems use only the laws that they name; Strip.Instances
-- has an instance over the integers, for the examples.
--
-- Loops. Most are structural. The search for a serial number has as fuel three rounds more than there
-- are workspaces: each round but the last meets a number that is taken or avoided, and no number
-- is met twice. The loop over the slots of a nested instance has as fuel the slots that are left, 998 of
-- them at the start. The sending of a text has 20 attempts, as in the code, and the replacing of a token
-- as many rounds as the text has bytes, since a round takes one at least.
--
-- What is not modelled: the drawing of widgets; of the session, the tree of the classic layout, the tabs of
-- the panes, the window and the file; of workspaces that move between instances, what they hold; of the
-- command line, what the tmux commands print, the start of an agent with its files, and
-- src/gtk/prettymux-open.c but for json_escape; the transport and the commands of the sockets, shortcuts,
-- themes and settings, and ghostty, a library that is not part of the repository. Windows has code of
-- its own in several files, which is left aside.
pub mod Prelude
pub mod Hover
pub mod Strip
pub mod Layout
pub mod Json
pub mod Session
pub mod Registry
pub mod Notifications
pub mod Status
pub mod Instance
pub mod Wire
pub mod Sidebar
pub mod Routing
pub mod Agent
