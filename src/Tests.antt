-- ===== src/Tests.antt =====
-- Runs of the model on small inputs. The hash functions, the curve, the semaphore and the node
-- are toys here, which satisfy the laws that the theorems ask for.
mod Toys
mod Texts
mod Keeper
mod Puzzles
mod Transactions
mod Claims
mod Schedules
mod Transfers
mod Honest
mod Start
mod Serving
