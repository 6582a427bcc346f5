-- ===== src/Query/Catalog.antt =====
-- frontend/components/admin/QueryBuilder.tsx: the queries that the builder offers.
use ikarin_bank.Prelude.{List, [], ◌∷◌}
use ikarin_bank.Text.{Text, codes}

-- An entry of `PREDEFINED_QUERIES`.
pub record Query : Type 0 where
  pub name : Text
  pub query : Text
  pub description : Text
  pub params : List Text

abbrev pub clickhouse_queries : List Query
clickhouse_queries =
    record {
      name = codes "All Transactions (24h)";
      query =
          codes
            "SELECT * FROM bank_transactions WHERE created_at >= now() - INTERVAL 1 DAY ORDER BY created_at DESC";
      description = codes "Shows all banking transactions from the past 24 hours";
      params = [];
    }
    ∷ record {
      name = codes "High Value Transactions";
      query =
          codes
            "SELECT * FROM bank_transactions WHERE amount > 1000 ORDER BY amount DESC LIMIT 100";
      description = codes "Transactions with amounts over $1,000";
      params = [];
    }
    ∷ record {
      name = codes "User Transaction History";
      query =
          codes
            "SELECT * FROM bank_transactions WHERE account_id = {user_id} ORDER BY created_at DESC LIMIT 50";
      description = codes "All transactions for specific user (requires user_id parameter)";
      params = codes "user_id" ∷ [];
    }
    ∷ record {
      name = codes "Hourly Transaction Volume";
      query =
          codes
            "SELECT toHour(created_at) as hour, COUNT(*) as count, SUM(amount) as total FROM bank_transactions WHERE created_at >= now() - INTERVAL 1 DAY GROUP BY hour ORDER BY hour";
      description = codes "Transaction volume grouped by hour";
      params = [];
    }
    ∷ record {
      name = codes "Top Merchants by Volume";
      query =
          codes
            "SELECT merchant, COUNT(*) as transaction_count, SUM(amount) as total_amount FROM bank_transactions WHERE created_at >= now() - INTERVAL 7 DAY GROUP BY merchant ORDER BY total_amount DESC LIMIT 20";
      description = codes "Top 20 merchants by transaction volume (7 days)";
      params = [];
    }
    ∷ record {
      name = codes "Daily Volume Trends";
      query =
          codes
            "SELECT toDate(created_at) as date, SUM(amount) as volume FROM bank_transactions GROUP BY date ORDER BY date DESC LIMIT 30";
      description = codes "Daily transaction volume for the last 30 days";
      params = [];
    }
    ∷ record {
      name = codes "Category Distribution";
      query =
          codes
            "SELECT category, COUNT(*) as count, SUM(amount) as total FROM bank_transactions GROUP BY category ORDER BY total DESC";
      description = codes "Spending patterns by transaction category";
      params = [];
    }
    ∷ record {
      name = codes "Average Transaction Size";
      query = codes "SELECT AVG(amount) FROM bank_transactions";
      description = codes "Global average transaction amount";
      params = [];
    }
    ∷ record {
      name = codes "Peak Usage Hours";
      query =
          codes
            "SELECT toHour(created_at) as hr, count(*) as c FROM bank_transactions GROUP BY hr ORDER BY c DESC";
      description = codes "Hours with highest transaction density";
      params = [];
    }
    ∷ record {
      name = codes "System Errors & Returns";
      query =
          codes "SELECT * FROM bank_transactions WHERE status = 'failed' OR amount < 0 LIMIT 50";
      description = codes "Trace failed or reversed transactions";
      params = [];
    }
    ∷ []

abbrev pub postgres_queries : List Query
postgres_queries =
    record {
      name = codes "All Users Registry";
      query =
          codes
            "SELECT id, first_name, last_name, email, role, created_at FROM users ORDER BY created_at DESC";
      description = codes "Complete member directory from PostgreSQL";
      params = [];
    }
    ∷ record {
      name = codes "Account Balances";
      query =
          codes
            "SELECT u.email, a.balance, a.name FROM users u JOIN accounts a ON u.id = a.user_id";
      description = codes "Current ledger balances for all users";
      params = [];
    }
    ∷ record {
      name = codes "Transaction Audit Log";
      query = codes "SELECT * FROM transactions ORDER BY created_at DESC LIMIT 100";
      description = codes "Raw transaction log from the main relational database";
      params = [];
    }
    ∷ record {
      name = codes "Idempotency Records";
      query = codes "SELECT * FROM idempotency_keys ORDER BY created_at DESC LIMIT 50";
      description = codes "Verify API execution consistency records";
      params = [];
    }
    ∷ record {
      name = codes "Scheduled Payments";
      query = codes "SELECT * FROM scheduled_payments WHERE status = 'Active'";
      description = codes "All currently active recurring transfers";
      params = [];
    }
    ∷ record {
      name = codes "Pending Requests";
      query = codes "SELECT * FROM payment_requests WHERE status = 'pending_target'";
      description = codes "Unclaimed peer-to-peer payment requests";
      params = [];
    }
    ∷ record {
      name = codes "Outbox Queue Status";
      query = codes "SELECT status, COUNT(*) FROM outbox GROUP BY status";
      description = codes "Current status of the Kafka event relay queue";
      params = [];
    }
    ∷ record {
      name = codes "Admin Audit Trail";
      query = codes "SELECT * FROM users WHERE role = 'admin'";
      description = codes "Identify all users with administrative privileges";
      params = [];
    }
    ∷ record {
      name = codes "System Totals (Assets)";
      query = codes "SELECT SUM(balance) as total_assets FROM accounts";
      description = codes "Cumulative balance of all accounts in the system";
      params = [];
    }
    ∷ record {
      name = codes "Recent Signups";
      query =
          codes
            "SELECT email, created_at FROM users WHERE created_at >= CURRENT_DATE - INTERVAL '7 days'";
      description = codes "New users registered in the last week";
      params = [];
    }
    ∷ []

abbrev pub kafka_queries : List Query
kafka_queries =
    record {
      name = codes "Recent Stream Events";
      query = codes "get_recent_messages";
      description = codes "Listen to the bank_transactions live message stream";
      params = [];
    }
    ∷ record {
      name = codes "Topic Telemetry";
      query = codes "get_topic_stats";
      description = codes "Real-time stats for the banking topic";
      params = [];
    }
    ∷ record {
      name = codes "Consumer Health";
      query = codes "get_consumer_groups";
      description = codes "Check status of event consumers and lag";
      params = [];
    }
    ∷ record {
      name = codes "Outbox Heartbeat";
      query = codes "get_outbox_telemetry";
      description = codes "Live monitoring of the Outbox Worker relay";
      params = [];
    }
    ∷ record {
      name = codes "Event Latency";
      query = codes "get_stream_latency";
      description = codes "Message propagation delay (ms)";
      params = [];
    }
    ∷ record {
      name = codes "Stream Errors";
      query = codes "get_error_stream";
      description = codes "High-level Kafka technical error logs";
      params = [];
    }
    ∷ record {
      name = codes "Partition Mapping";
      query = codes "get_partition_data";
      description = codes "Analyze message distribution across partitions";
      params = [];
    }
    ∷ record {
      name = codes "Producer Status";
      query = codes "get_producer_health";
      description = codes "Verify the API backend's connection to the cluster";
      params = [];
    }
    ∷ record {
      name = codes "Message Geometry";
      query = codes "get_message_sizes";
      description = codes "Payload size distribution telemetry";
      params = [];
    }
    ∷ record {
      name = codes "System Snapshots";
      query = codes "get_topic_snapshots";
      description = codes "Historical high-water marks for the 24h cycle";
      params = [];
    }
    ∷ []
